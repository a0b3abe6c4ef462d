-- ===== src/Publisher/Connection/Refinement.antt =====
-- be/ocpp/services/queue_publisher.py: `publish` with the connection of its thread, against
-- `publish` with no connection.
use levity.Prelude.{ℕ, zero, suc, some, ◌≡◌, ◌⊎◌}
use levity.Models.World.{World, Outcome, done, raised}
use levity.Platform.{Platform}
use levity.Publisher.Connection.{Pika, Thread, fresh, State, publish_once}
use levity.Types.PublishRun.{PublishRun, sent_off, not_sent}
use levity.Types.Error.{Result, ok, err, amqp_error}
use levity.Value.{Value}

-- A run, by how it ends: what raises has sent nothing here.
unfoldable pub run_of_result : Result (Unit {0}) → PublishRun
run_of_result (ok u) = sent_off
run_of_result (err e) = not_sent e

module _ ⦃k : Pika⦄ where
  -- The thread before its n-th run.
  unfoldable pub thread_at : ℕ → Thread
  thread_at zero = fresh
  thread_at (suc n) = (publish_once n (thread_at n)).0

  -- What comes of the n-th run of a thread.
  abbrev pub run_of : ℕ → PublishRun
  run_of n = run_of_result (publish_once n (thread_at n)).1

  -- A connection comes with a channel.
  abbrev HasChannel : Thread → Type 0
  HasChannel t = (c : ℕ) → t.connection ≡ some c → (d : ℕ) × (t.channel ≡ some d)

  -- A run ends well or in AMQPError, and the thread is as it should be.
  abbrev Fine : Thread × Result (Unit {0}) → Type 0
  Fine (t, r) = HasChannel t × ((r ≡ ok tt) ⊎ (r ≡ err amqp_error))

  -- A state of the backend with the thread that got there.
  abbrev pub with_thread : World → State
  with_thread w = (thread_at w.publish_attempts, w)

  abbrev pub connected : Outcome (Unit {0}) → State × Result (Unit {0})
  connected (done u w) = (with_thread w, ok u)
  connected (raised e w) = (with_thread w, err e)
