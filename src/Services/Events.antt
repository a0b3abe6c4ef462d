-- ===== src/Services/Events.antt =====
-- be/ocpp/services/websocket_event_handler.py: an event of the websocket server reaches its handler.
pub mod Rows
pub mod Connected
pub mod Repeated
use levity.Prelude.{true, false, some}
use levity.Dict.{subscript}
use levity.Models.Rows.{ChargePoint}
use levity.Models.World.{Exec, lift, ◌>>=◌, ◌>>◌}
use levity.Objects.ChargePoints.{update_or_create_charge_point, create_websocket_event}
use levity.Objects.Effects.{utc_now}
use levity.Objects.Messages.{from_occp}
use levity.Objects.Transactions.{save_charge_point}
use levity.Platform.{Platform}
use levity.Services.ResultHandler.{handle_message_from_charge_point}
use levity.Types.Action.{
  WebsocketEventType, connect, disconnect, receive, parse_websocket_event_type,
}
use levity.Value.{Value}

module _ ⦃p : Platform⦄ where
  unfoldable pub handle_connect : ChargePoint → Exec (Unit {0})
  handle_connect charge_point = do
    now ← utc_now
    save_charge_point charge_point.id
        (λ row. record row { is_connected = true; last_connect_at = some now })
    timestamp ← utc_now
    create_websocket_event charge_point.id timestamp connect

  unfoldable pub handle_disconnect : ChargePoint → Exec (Unit {0})
  handle_disconnect charge_point = do
    save_charge_point charge_point.id (λ row. record row { is_connected = false })
    timestamp ← utc_now
    create_websocket_event charge_point.id timestamp disconnect

  unfoldable pub handle_receive : ChargePoint → Value → Exec (Unit {0})
  handle_receive charge_point event = do
    message ← from_occp charge_point event
    handle_message_from_charge_point charge_point message

  -- WEBSOCKET_HANDLERS[event_type].handle
  unfoldable pub handle_by_event_type : WebsocketEventType → ChargePoint → Value → Exec (Unit {0})
  handle_by_event_type connect cp event = handle_connect cp
  handle_by_event_type disconnect cp event = handle_disconnect cp
  handle_by_event_type receive cp event = handle_receive cp event

  unfoldable pub handle_websocket_event : Value → Exec (Unit {0})
  handle_websocket_event event = do
    id ← lift (subscript event "id")
    queue ← lift (subscript event "queue")
    charge_point ← update_or_create_charge_point id queue
    type ← lift (subscript event "type")
    event_type ← lift (parse_websocket_event_type type)
    handle_by_event_type event_type charge_point event
