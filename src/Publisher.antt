-- ===== src/Publisher.antt =====
-- be/ocpp/services/queue_publisher.py and charge_point_service.py: messages handed to the broker.
-- What comes of each run of the body of `publish`, `_reconnect` and `_channel` included, is the
-- platform's here: it returns, or raises any error, with the message sent or not. Connection has what
-- decides it.
pub mod Delivery
pub mod Attempts
pub mod Connection
use levity.Prelude.{ℕ, ◌+◌, String, List, [], ◌∷◌, ◌++◌, if◌then◌else◌}
use levity.Types.PublishRun.{PublishRun, sent_off, not_sent, sent_and_raised}
use levity.Models.Rows.{ChargePoint, Message}
use levity.Models.World.{Exec, Outcome, World, done, raised, lift, ◌>>=◌, ◌>>◌}
use levity.Platform.{Platform}
use levity.Serialization.{json_encode}
use levity.Value.{Value}
use levity.Wire.{to_ocpp}

-- How a run ends, with the message not sent and with it sent.
abbrev pub ended : PublishRun → (unsent out : World) → Outcome (Unit {0})
ended sent_off unsent out = done tt out
ended (not_sent e) unsent out = raised e unsent
ended (sent_and_raised e) unsent out = raised e out

module _ ⦃p : Platform⦄ where
  -- One run of the body of `publish`.
  unfoldable pub basic_publish : String → Value → Exec (Unit {0})
  basic_publish queue body w =
      let w' = record w { publish_attempts = w.publish_attempts + 1 } in
      let out = record w' { sent = w'.sent ++ (queue, body) ∷ [] } in
      ended (p.publish_run w.publish_attempts) w' out

  -- `@retry(AMQPError, tries=5, delay=1, backoff=2)`
  unfoldable pub publish : String → Value → Exec (Unit {0})
  publish queue message = p.retry 5 (basic_publish queue (json_encode message))

  unfoldable pub send_message_to_charge_point : ChargePoint → Message → Exec (Unit {0})
  send_message_to_charge_point charge_point message = do
    body ← lift (to_ocpp message)
    publish charge_point.ws_queue body
