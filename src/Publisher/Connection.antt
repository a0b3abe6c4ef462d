-- ===== src/Publisher/Connection.antt =====
-- The connection that a thread keeps, be/ocpp/services/queue_publisher.py. Pika is a parameter: what
-- comes of each call of it in the n-th run of the body of `publish`.
pub mod Refinement
pub mod Channelless
use levity.Prelude.{
  ℕ, zero, suc, ◌+◌, String, Bool, true, false, Option, none, some, [], ◌∷◌, ◌++◌, ◌≡◌, ◌≢◌,
  if◌then◌else◌,
}
use levity.Models.World.{World}
use levity.Platform.{Platform}
use levity.Serialization.{json_encode}
use levity.Types.Error.{Error, Result, ok, err, amqp_error, attribute_error}
use levity.Value.{Value}

-- A connection and a channel go by the run that opened them.
pub record Pika : Type 0 where
  -- `connection.is_closed`
  pub is_closed : (connection run : ℕ) → Bool
  -- whether `BlockingConnection(…)`, `connection.channel()` and `basic_publish` raise AMQPError
  pub connection_fails : (run : ℕ) → Bool
  pub channel_fails : (run : ℕ) → Bool
  pub publish_fails : (channel run : ℕ) → Bool

-- The attributes of `threading.local()`.
pub record Thread : Type 0 where
  pub connection : Option ℕ
  pub channel : Option ℕ

abbrev pub fresh : Thread
fresh = record { connection = none; channel = none }

-- A thread, the backend's state, and what a call on them comes to.
abbrev pub State : Type 0
State = Thread × World

abbrev pub Call : Type 0
Call = State → State × Result (Unit {0})

module _ ⦃k : Pika⦄ where
  -- `not hasattr(self._tl, "connection") or self._tl.connection.is_closed`
  unfoldable pub is_disconnected : ℕ → Option ℕ → Bool
  is_disconnected run none = true
  is_disconnected run (some c) = k.is_closed c run

  unfoldable pub open_channel : ℕ → Thread → Thread × Result (Unit {0})
  open_channel run t =
      if k.channel_fails run then (t, err amqp_error) else (record t { channel = some run }, ok tt)

  unfoldable pub open_connection : ℕ → Thread → Thread × Result (Unit {0})
  open_connection run t =
      let opened = open_channel run (record t { connection = some run }) in
      if k.connection_fails run then (t, err amqp_error) else opened

  -- `_reconnect`
  unfoldable pub reconnect : ℕ → Thread → Thread × Result (Unit {0})
  reconnect run t = if is_disconnected run t.connection then open_connection run t else (t, ok tt)

  -- `self._channel.basic_publish(…)`
  unfoldable pub publish_on : ℕ → Option ℕ → Result (Unit {0})
  publish_on run none = err attribute_error
  publish_on run (some c) = if k.publish_fails c run then err amqp_error else ok tt

  unfoldable pub then_publish : ℕ → Thread × Result (Unit {0}) → Thread × Result (Unit {0})
  then_publish run (t, ok u) = (t, publish_on run t.channel)
  then_publish run (t, err e) = (t, err e)

  -- What a run does with the connection.
  unfoldable pub publish_once : ℕ → Thread → Thread × Result (Unit {0})
  publish_once run t = then_publish run (reconnect run t)

-- What is sent in the end, with the run after_run.
unfoldable pub after_run : String → Value → World → Result (Unit {0}) → World
after_run queue body w (ok u) = record w {
  publish_attempts = w.publish_attempts + 1;
  sent = w.sent ++ (queue, body) ∷ [];
}
after_run queue body w (err e) = record w { publish_attempts = w.publish_attempts + 1 }

module _ ⦃p : Platform⦄ ⦃k : Pika⦄ where
  -- The body of `publish`.
  unfoldable pub publish_body : String → Value → Call
  publish_body queue message (t, w) =
      let (t', r) = publish_once w.publish_attempts t in
      ((t', after_run queue (json_encode message) w r), r)

-- `retry(AMQPError, tries=n)` on a thread's state.
pub record Retry : Type 0 where
  pub retry : ℕ → Call → Call
  pub retry_done :
      (n : ℕ) (f : Call) (s v : State) → f s ≡ (v, ok tt) → retry (suc n) f s ≡ (v, ok tt)
  pub retry_last :
      (f : Call) (s v : State) → f s ≡ (v, err amqp_error) → retry 1 f s ≡ (v, err amqp_error)
  pub retry_again :
      (n : ℕ) (f : Call) (s v : State)
      → f s ≡ (v, err amqp_error)
      → retry (suc (suc n)) f s ≡ retry (suc n) f v
  pub retry_other :
      (n : ℕ) (e : Error) (f : Call) (s v : State)
      → e ≢ amqp_error
      → f s ≡ (v, err e)
      → retry (suc n) f s ≡ (v, err e)

module _ ⦃p : Platform⦄ ⦃k : Pika⦄ ⦃r : Retry⦄ where
  -- `publish`, with the connection of its thread.
  unfoldable pub publish_connected : String → Value → Call
  publish_connected queue message = r.retry 5 (publish_body queue message)
