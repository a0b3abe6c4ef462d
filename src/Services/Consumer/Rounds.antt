-- ===== src/Services/Consumer/Rounds.antt =====
-- The rounds of the loop in be/ocpp/services/queue_consumer.py, one after another.
use mathlib.Core.List.{append-nil}
use levity.Prelude.{
  ℕ, ◌+◌, ◌≡◌, refl, ap, ◌∙◌, sym, Option, none, some, List, [], ◌∷◌, ◌++◌, arith, All, length,
}
use levity.Models.World.{world_of, lift, ◌>>=◌}
use levity.Platform.{Platform}
use levity.Services.Consumer.{
  Queue, callback, consume, after_round, Ending, returns, channel_error, connection_closed,
  connection_error, raises, Session, Loop, left, propagates, handle_only, run_session,
  consume_sessions,
}
use levity.Services.Events.{handle_websocket_event}
use levity.Types.Error.{Error, Result}
use levity.Value.{Value}

-- The endings after which the loop connects again, and those that end it, with what is left of it.
pub data Reconnects : Ending → Type 0 where
  after_return : Reconnects returns
  after_close : Reconnects connection_closed
  after_loss : Reconnects connection_error

pub data Ends : Ending → (Queue → Loop) → Type 0 where
  by_break : Ends channel_error left
  by_error : (e : Error) → Ends (raises e) (propagates e)

-- The bodies that the rounds handle, and how many of them they acknowledge.
abbrev pub optional : Option (Result Value) → List (Result Value)
optional none = []
optional (some body) = body ∷ []

unfoldable pub handled : List Session → List (Result Value)
handled [] = []
handled (s ∷ rest) = (s.deliveries ++ optional s.unacknowledged) ++ handled rest

unfoldable pub acknowledgements : List Session → ℕ
acknowledgements [] = 0
acknowledgements (s ∷ rest) = length s.deliveries + acknowledgements rest

Queue-eq : {q r : Queue} → q.world ≡ r.world → q.acknowledged ≡ r.acknowledged → q ≡ r
Queue-eq worlds counts = λ i. record { world = worlds i; acknowledged = counts i }

after-Reconnects :
    {e : Ending} (again : Loop) (q : Queue) → Reconnects e → after_round e again q ≡ again
after-Reconnects again q after_return = refl
after-Reconnects again q after_close = refl
after-Reconnects again q after_loss = refl

after-Ends :
    {e : Ending} {out : Queue → Loop} (again : Loop) (q : Queue)
    → Ends e out
    → after_round e again q ≡ out q
after-Ends again q by_break = refl
after-Ends again q (by_error e) = refl

module _ ⦃p : Platform⦄ where
  -- The state when these bodies are handled and so many of them acknowledged.
  abbrev pub through : List (Result Value) → ℕ → Queue → Queue
  through bodies n q = record {
    world = (consume bodies q).world;
    acknowledged = q.acknowledged + n;
  }

  consume-append :
      (a b : List (Result Value)) (q : Queue) → consume (a ++ b) q ≡ consume b (consume a q)
  unfolding consume
  consume-append [] b q = refl
  consume-append (body ∷ a) b q = consume-append a b (callback body q)

  consume-world :
      (bodies : List (Result Value)) (q r : Queue)
      → q.world ≡ r.world
      → (consume bodies q).world ≡ (consume bodies r).world
  unfolding consume callback
  consume-world [] q r same = same
  consume-world (body ∷ bodies) q r same =
      consume-world bodies _ _ (ap (λ w. world_of ((lift body >>= handle_websocket_event) w)) same)

  consume-acknowledged :
      (bodies : List (Result Value)) (q : Queue)
      → (consume bodies q).acknowledged ≡ q.acknowledged + length bodies
  unfolding consume callback
  consume-acknowledged [] q = omega arith
  consume-acknowledged (body ∷ bodies) q =
      let rest = consume-acknowledged bodies (callback body q) in omega arith

  handle_only_lem :
      (a : List (Result Value)) (body : Option (Result Value)) (q : Queue)
      → handle_only body (consume a q) ≡ through (a ++ optional body) (length a) q
  unfolding handle_only consume
  handle_only_lem a none q =
      Queue-eq (ap (λ l. (consume l q).world) (sym (append-nil a))) (consume-acknowledged a q)
  handle_only_lem a (some body) q =
      Queue-eq (ap (λ r. r.world) (sym (consume-append a (body ∷ []) q))) (consume-acknowledged a q)

  -- What follows a session that was run.
  through_lem :
      (a b : List (Result Value)) (n m : ℕ) (q : Queue)
      → through b m (through a n q) ≡ through (a ++ b) (n + m) q
  through_lem a b n m q =
      Queue-eq
        (consume-world b _ (consume a q) refl ∙ ap (λ r. r.world) (sym (consume-append a b q)))
        (omega arith)

  run_session-through :
      (s : Session) (rest : List Session) (q : Queue)
      → through (handled rest) (acknowledgements rest) (run_session s q)
        ≡ through (handled (s ∷ rest)) (acknowledgements (s ∷ rest)) q
  unfolding run_session handled acknowledgements
  run_session-through s rest q =
      ap (through (handled rest) (acknowledgements rest))
        (handle_only_lem s.deliveries s.unacknowledged q)
      ∙ through_lem (s.deliveries ++ optional s.unacknowledged) (handled rest) (length s.deliveries)
          (acknowledgements rest) q

  run_session-last :
      (s : Session) (q : Queue)
      → run_session s q ≡ through (handled (s ∷ [])) (acknowledgements (s ∷ [])) q
  unfolding handled acknowledgements consume
  run_session-last s q = Queue-eq refl (omega arith) ∙ run_session-through s [] q

  -- The loop connects again after every round whose `start_consuming` returns or whose connection is
  -- closed or lost. At the first round that a channel error ends it leaves, and where another exception
  -- ends it the exception goes through; no later round is run. By then it has handled the bodies of its
  -- rounds in order, one whose acknowledgement raised included, and acknowledged all but those.
  pub consume_sessions-Ends :
      (before : List Session) (s : Session) (rest : List Session) (out : Queue → Loop) (q : Queue)
      → All (λ t. Reconnects t.ending) before
      → Ends s.ending out
      → consume_sessions (before ++ s ∷ rest) q
        ≡ out (record {
          world = (consume (handled (before ++ s ∷ [])) q).world;
          acknowledged = q.acknowledged + acknowledgements (before ++ s ∷ []);
        })
  unfolding consume_sessions
  consume_sessions-Ends [] s rest out q on ends =
      after-Ends (consume_sessions rest (run_session s q)) (run_session s q) ends
      ∙ ap out (run_session-last s q)
  consume_sessions-Ends (t ∷ before) s rest out q on ends =
      after-Reconnects (consume_sessions (before ++ s ∷ rest) (run_session t q)) (run_session t q)
        on.0
      ∙ consume_sessions-Ends before s rest out (run_session t q) on.1 ends
      ∙ ap out (run_session-through t (before ++ s ∷ []) q)
