-- ===== src/Publisher/Delivery.antt =====
-- The tries of QueuePublisher.publish, be/ocpp/services/queue_publisher.py.
use native.Mathlib.Nat.{add-zero, suc-add}
use levity.Prelude.{ℕ, zero, suc, ◌+◌, ◌<◌, String, ◌≡◌, ◌∙◌, ap, ◌-◌, [], ◌∷◌, ◌++◌, arith}
use levity.Models.World.{World, done, raised}
use levity.Platform.{Platform}
use levity.Publisher.{basic_publish, publish}
use levity.Serialization.{json_encode}
use levity.Types.PublishRun.{PublishRun, sent_off, not_sent}
use levity.Types.Error.{amqp_error}
use levity.Value.{Value}

module _ ⦃p : Platform⦄ (queue : String) (body : Value) where
  -- The state after `k` attempts that failed.
  abbrev pub failed : ℕ → World → World
  failed k w = record w { publish_attempts = w.publish_attempts + k }

  -- The state when the attempt that follows has succeeded.
  abbrev pub delivered : ℕ → World → World
  delivered k w = record w {
    publish_attempts = w.publish_attempts + k + 1;
    sent = w.sent ++ (queue, body) ∷ [];
  }

  pub attempt_ok :
      (w : World)
      → p.publish_run w.publish_attempts ≡ sent_off
      → basic_publish queue body w ≡ done tt (delivered 0 w)
  unfolding basic_publish
  attempt_ok w h = rw (h, add-zero)

  pub attempt_failed :
      (w : World)
      → p.publish_run w.publish_attempts ≡ not_sent amqp_error
      → basic_publish queue body w ≡ raised amqp_error (failed 1 w)
  unfolding basic_publish
  attempt_failed w h = rw h

  fails_at : (n m : ℕ) → n ≡ m → (b : PublishRun) → p.publish_run m ≡ b → p.publish_run n ≡ b
  fails_at n m e b h = ap p.publish_run e ∙ h

  -- `k` failures and then a success, with more tries than failures.
  tries-delivered :
      (k spare : ℕ) (w : World)
      → ((j : ℕ) → j < k → p.publish_run (w.publish_attempts + j) ≡ not_sent amqp_error)
      → p.publish_run (w.publish_attempts + k) ≡ sent_off
      → p.retry (suc (k + spare)) (basic_publish queue body) w ≡ done tt (delivered k w)
  tries-delivered zero spare w fails last =
      p.retry_done (zero + spare) (basic_publish queue body) w (delivered 0 w)
        (attempt_ok w (fails_at _ _ (omega arith) sent_off last))
  tries-delivered (suc k) spare w fails last =
      let again =
        tries-delivered k spare (failed 1 w)
          (λ j h. fails_at _ _ (omega arith) (not_sent amqp_error) (fails (suc j) (omega arith)))
          (fails_at _ _ (omega arith) sent_off last) in
      let first : p.publish_run w.publish_attempts ≡ not_sent amqp_error =
        fails_at _ _ (omega arith) (not_sent amqp_error) (fails 0 (omega arith)) in
      ap (λ n. p.retry (suc n) (basic_publish queue body) w) (suc-add k spare)
      ∙ p.retry_again (k + spare) (basic_publish queue body) w (failed 1 w) (attempt_failed w first)
      ∙ again
      ∙ ap (λ n. done tt (record w { publish_attempts = n; sent = w.sent ++ (queue, body) ∷ [] }))
          (omega arith)

module _ ⦃p : Platform⦄ (queue : String) (message : Value) (w : World) where
  pub publish-delivered :
      (k : ℕ)
      → k < 5
      → ((j : ℕ) → j < k → p.publish_run (w.publish_attempts + j) ≡ not_sent amqp_error)
      → p.publish_run (w.publish_attempts + k) ≡ sent_off
      → publish queue message w ≡ done tt (delivered queue (json_encode message) k w)
  unfolding publish
  publish-delivered k below fails last =
      let tries : 5 ≡ suc (k + (4 - k)) = omega arith in
      ap (λ n. p.retry n (basic_publish queue (json_encode message)) w) tries
      ∙ tries-delivered queue (json_encode message) k (4 - k) w fails last
