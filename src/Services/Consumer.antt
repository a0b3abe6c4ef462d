-- ===== src/Services/Consumer.antt =====
-- The callback of be/ocpp/services/queue_consumer.py, as consume_rpc_queue.py runs it: an exception
-- is logged and dropped, and every delivery is acknowledged; and the loop that connects again.
pub mod Rounds
use levity.Prelude.{Option, none, some, ℕ, ◌+◌, List, [], ◌∷◌}
use levity.Models.World.{World, world_of, lift, ◌>>=◌}
use levity.Platform.{Platform}
use levity.Services.Events.{handle_websocket_event}
use levity.Types.Error.{Error, Result}
use levity.Value.{Value}

pub record Queue : Type 0 where
  pub world : World
  pub acknowledged : ℕ

module _ ⦃p : Platform⦄ where
  -- `_callback`; a body is what `json.loads` makes of it.
  unfoldable pub callback : Result Value → Queue → Queue
  callback body q = record {
    world = world_of ((lift body >>= handle_websocket_event) q.world);
    acknowledged = q.acknowledged + 1;
  }

  -- The deliveries one after another, since `prefetch_count` is 1.
  unfoldable pub consume : List (Result Value) → Queue → Queue
  consume [] q = q
  consume (body ∷ bodies) q = consume bodies (callback body q)

-- How the `try` of one round of the loop ends: `start_consuming` returns, or the connection or the
-- channel raises, also while the round connects or acknowledges.
pub data Ending : Type 0 where
  returns channel_error connection_closed connection_error : Ending
  raises : Error → Ending

-- A round: the deliveries that were acknowledged, one whose acknowledgement raised, and the ending.
-- The broker delivers what was not acknowledged again, so bodies come back in later rounds.
pub record Session : Type 0 where
  pub deliveries : List (Result Value)
  pub unacknowledged : Option (Result Value)
  pub ending : Ending

-- The loop after some rounds: it goes on, has left by `break`, or an exception went through.
pub data Loop : Type 0 where
  goes_on left : Queue → Loop
  propagates : Error → Queue → Loop

-- The `except` clauses of a round, given how the loop goes on.
abbrev pub after_round : Ending → (again : Loop) → Queue → Loop
after_round returns again q = again
after_round channel_error again q = left q
after_round connection_closed again q = again
after_round connection_error again q = again
after_round (raises e) again q = propagates e q

module _ ⦃p : Platform⦄ where
  -- A delivery that was handled and not acknowledged.
  unfoldable pub handle_only : Option (Result Value) → Queue → Queue
  unfolding callback
  handle_only none q = q
  handle_only (some body) q = record (callback body q) { acknowledged = q.acknowledged }

  unfoldable pub run_session : Session → Queue → Queue
  run_session s q = handle_only s.unacknowledged (consume s.deliveries q)

  -- `while True`
  unfoldable pub consume_sessions : List Session → Queue → Loop
  consume_sessions [] q = goes_on q
  consume_sessions (s ∷ rest) q =
      let q' = run_session s q in after_round s.ending (consume_sessions rest q') q'
