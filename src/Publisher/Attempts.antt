-- ===== src/Publisher/Attempts.antt =====
-- How often QueuePublisher.publish, be/ocpp/services/queue_publisher.py, tries.
use mathlib.Core.List.{append-nil, append_assoc}
use native.Mathlib.Nat.{add-zero, le-suc_iff}
use levity.Logic.Retry.{Error-discrete}
use levity.Prelude.{
  ℕ, zero, suc, ◌+◌, ◌<◌, String, ◌≡◌, ◌≢◌, List, [], ◌∷◌, ◌++◌, inl, inr, arith, ap, ◌∙◌, sym,
  subst, ◌⊎◌,
}
use levity.Models.World.{World, Outcome, done, raised}
use levity.Platform.{Platform}
use levity.Publisher.{basic_publish, publish}
use levity.Serialization.{json_encode}
use levity.Types.Error.{Error, amqp_error}
use levity.Types.PublishRun.{PublishRun, PublishRun-cases, sent_off, not_sent, sent_and_raised}
use levity.Value.{Value}

-- A run that raises an error, with the message sent or not.
pub data Raises (e : Error) : PublishRun → Type 0 where
  before_it_left : Raises e (not_sent e)
  after_it_left : Raises e (sent_and_raised e)

module _ ⦃p : Platform⦄ (queue : String) (body : Value) (w : World) where
  -- The `k`-th attempt from `w`.
  abbrev pub run : ℕ → PublishRun
  run k = p.publish_run (w.publish_attempts + k)

  -- What a run hands over, and what the first `k` do.
  abbrev pub given : PublishRun → List (String × Value)
  given sent_off = (queue, body) ∷ []
  given (not_sent e) = []
  given (sent_and_raised e) = (queue, body) ∷ []

  unfoldable pub handed : ℕ → List (String × Value)
  handed zero = []
  handed (suc k) = handed k ++ given (run k)

  -- The state after `k` attempts.
  abbrev pub spent : ℕ → World
  spent k = record w { publish_attempts = w.publish_attempts + k; sent = w.sent ++ handed k }

  -- The first `k` attempts raise AMQPError.
  abbrev pub Refused : ℕ → Type 0
  Refused k = (j : ℕ) → j < k → Raises amqp_error (run j)

  -- How a publish of at most `n` tries ends.
  pub data Tried (n : ℕ) : Outcome (Unit {0}) → Type 0 where
    delivered : (k : ℕ) → k < n → Refused k → run k ≡ sent_off → Tried n (done tt (spent (suc k)))
    gave_up : Refused n → Tried n (raised amqp_error (spent n))
    broke_off :
        (k : ℕ) (e : Error)
        → k < n
        → Refused k
        → e ≢ amqp_error
        → Raises e (run k)
        → Tried n (raised e (spent (suc k)))

  spent_next :
      (k : ℕ) (sent : List (String × Value))
      → (w.sent ++ handed k) ++ given (run k) ≡ sent
      → record w { publish_attempts = w.publish_attempts + k + 1; sent = sent } ≡ spent (suc k)
  unfolding handed
  spent_next k sent same =
      let more : w.publish_attempts + k + 1 ≡ w.publish_attempts + suc k = omega arith in
      ap (λ n. record w { publish_attempts = n; sent = sent }) more
      ∙ ap (λ l. record w { publish_attempts = w.publish_attempts + suc k; sent = l })
          (sym same ∙ append_assoc w.sent (handed k) (given (run k)))

  attempt_sent_off :
      (k : ℕ) → run k ≡ sent_off → basic_publish queue body (spent k) ≡ done tt (spent (suc k))
  unfolding basic_publish
  attempt_sent_off k r =
      rw r (ap (done tt) (spent_next k _ (ap (λ x. (w.sent ++ handed k) ++ given x) r)))

  attempt-raised :
      (k : ℕ) (e : Error)
      → (run k ≡ not_sent e) ⊎ (run k ≡ sent_and_raised e)
      → basic_publish queue body (spent k) ≡ raised e (spent (suc k))
  unfolding basic_publish
  attempt-raised k e (inl r) = rw r (
      ap (raised e) (
        spent_next k _
          (ap (λ x. (w.sent ++ handed k) ++ given x) r ∙ append-nil (w.sent ++ handed k))))
  attempt-raised k e (inr r) =
      rw r (ap (raised e) (spent_next k _ (ap (λ x. (w.sent ++ handed k) ++ given x) r)))

  run-Raises :
      (k : ℕ) (e : Error) → (run k ≡ not_sent e) ⊎ (run k ≡ sent_and_raised e) → Raises e (run k)
  run-Raises k e (inl r) = subst (Raises e) (sym r) before_it_left
  run-Raises k e (inr r) = subst (Raises e) (sym r) after_it_left

  Refused-next : (k : ℕ) → Refused k → Raises amqp_error (run k) → Refused (suc k)
  Refused-next k before last j below = elim (le-suc_iff.0 below) [
    | inl less ↦ before j less
    | inr same ↦ let at : k ≡ j = omega arith in subst (λ n. Raises amqp_error (run n)) at last
  ]

  -- The attempt after `k` that raised AMQPError, with how to go on if it raises AMQPError too.
  attempt-Tried :
      (k n : ℕ)
      → Refused k
      → (basic_publish queue body (spent k) ≡ raised amqp_error (spent (suc k))
          → Refused (suc k)
          → Tried (k + suc n) (p.retry (suc n) (basic_publish queue body) (spent k)))
      → Tried (k + suc n) (p.retry (suc n) (basic_publish queue body) (spent k))
  attempt-Tried k n before again = elim (PublishRun-cases (run k)) [
    | inl r ↦
        rw (p.retry_done n _ (spent k) _ (attempt_sent_off k r))
          (delivered k (omega arith) before r)
    | inr (e, r) ↦ elim (Error-discrete e amqp_error) [
      | yes same ↦
          again
            (subst (λ x. basic_publish queue body (spent k) ≡ raised x (spent (suc k))) same
              (attempt-raised k e r))
            (Refused-next k before (subst (λ x. Raises x (run k)) same (run-Raises k e r)))
      | no other ↦
          rw (p.retry_other n e _ (spent k) _ other (attempt-raised k e r))
            (broke_off k e (omega arith) before other (run-Raises k e r))
    ]
  ]

  tries-Tried :
      (n k : ℕ)
      → Refused k
      → Tried (k + suc n) (p.retry (suc n) (basic_publish queue body) (spent k))
  tries-Tried zero k before = attempt-Tried k zero before (λ e refused.
      let all : suc k ≡ k + 1 = omega arith in
      rw (p.retry_last _ (spent k) _ e)
        (subst (λ m. Tried m (raised amqp_error (spent (suc k)))) all (gave_up refused)))
  tries-Tried (suc n) k before = attempt-Tried k (suc n) before (λ e refused.
      let all : suc k + suc n ≡ k + suc (suc n) = omega arith in
      rw (p.retry_again n _ (spent k) _ e) (
        subst (λ m. Tried m (p.retry (suc n) (basic_publish queue body) (spent (suc k)))) all
          (tries-Tried n (suc k) refused)))

-- Each attempt may return, or raise any error with the message handed to the broker or not. `publish`
-- ends at the first attempt that does not raise AMQPError, as that attempt does, or after five that
-- do with AMQPError; then just these attempts are made, and the message is on its queue once for each
-- of them that handed it over, with all else as before.
pub publish-Tried :
    ⦃p : Platform⦄ (queue : String) (message : Value) (w : World)
    → Tried queue (json_encode message) w 5 (publish queue message w)
unfolding publish handed
publish-Tried ⦃p = p⦄ queue message w =
    let body = json_encode message in
    let start : spent queue body w 0 ≡ w =
      ap (λ n. record w { publish_attempts = n; sent = w.sent ++ [] }) (add-zero w.publish_attempts)
      ∙ ap (λ l. record w { sent = l }) (append-nil w.sent) in
    subst (λ v. Tried queue body w 5 (p.retry 5 (basic_publish queue body) v)) start
      (tries-Tried queue body w 4 0 (λ j h. absurd (omega arith)))
