-- ===== src/Publisher/Connection/Channelless.antt =====
-- `_reconnect` of be/ocpp/services/queue_publisher.py when a connection opens and its channel does
-- not.
use levity.Prelude.{ℕ, ◌+◌, String, true, false, none, some, ◌≡◌, refl, ◌∙◌, arith}
use levity.Models.World.{World}
use levity.Platform.{Platform}
use levity.Publisher.Connection.{
  Pika, Thread, is_disconnected, open_channel, open_connection, reconnect, publish_on, then_publish,
  publish_once, after_run, publish_body, Retry, publish_connected,
}
use levity.Types.Error.{ok, err, amqp_error, attribute_error}
use levity.Value.{Value}

-- A thread that has a connection and no channel.
abbrev pub channelless : ℕ → Thread
channelless c = record { connection = some c; channel = none }

-- The state after `n` runs that sent nothing.
abbrev pub unsent : ℕ → World → World
unsent n w = record w { publish_attempts = w.publish_attempts + n }

module _ ⦃p : Platform⦄ ⦃k : Pika⦄ (queue : String) (message : Value) where
  first_run :
      (t : Thread) (w : World)
      → t.channel ≡ none
      → is_disconnected w.publish_attempts t.connection ≡ true
      → k.connection_fails w.publish_attempts ≡ false
      → k.channel_fails w.publish_attempts ≡ true
      → publish_body queue message (t, w)
        ≡ ((channelless w.publish_attempts, unsent 1 w), err amqp_error)
  unfolding publish_body publish_once reconnect then_publish open_connection open_channel after_run
  first_run t w bare gone connects refused = rw (gone, connects, refused, bare) refl

  reconnect_open :
      (c run : ℕ)
      → k.is_closed c run ≡ false
      → reconnect run (channelless c) ≡ (channelless c, ok tt)
  unfolding reconnect is_disconnected
  reconnect_open c run is_open = rw is_open refl

  later_run :
      (c : ℕ) (w : World)
      → k.is_closed c w.publish_attempts ≡ false
      → publish_body queue message (channelless c, w)
        ≡ ((channelless c, unsent 1 w), err attribute_error)
  unfolding publish_body publish_once then_publish publish_on after_run
  later_run c w is_open = rw (reconnect_open c w.publish_attempts is_open) refl

  module _ ⦃r : Retry⦄ where
    -- When a thread with no channel opens a connection, its channel is refused and the connection
    -- stays open, `publish` raises AttributeError in its second run, which is not tried again, sends
    -- nothing, and leaves the thread without a channel.
    pub publish-channelless :
        (t : Thread) (w : World)
        → t.channel ≡ none
        → is_disconnected w.publish_attempts t.connection ≡ true
        → k.connection_fails w.publish_attempts ≡ false
        → k.channel_fails w.publish_attempts ≡ true
        → k.is_closed w.publish_attempts (w.publish_attempts + 1) ≡ false
        → publish_connected queue message (t, w)
          ≡ ((channelless w.publish_attempts, unsent 2 w), err attribute_error)
    unfolding publish_connected
    publish-channelless t w bare gone connects refused is_open =
        let n = w.publish_attempts in
        let two : n + 1 + 1 ≡ n + 2 = omega arith in
        r.retry_again 3 _ (t, w) _ (first_run t w bare gone connects refused)
        ∙ r.retry_other 3 attribute_error _ _ _ (λ same. cc) (later_run n (unsent 1 w) is_open)
        ∙ rw two refl
