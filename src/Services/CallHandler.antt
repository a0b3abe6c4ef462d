-- ===== src/Services/CallHandler.antt =====
-- be/ocpp/services/charge_point_message_handler.py: ChargePointCallHandler and the default chains.
pub mod Silence
pub mod Order
use levity.Prelude.{Option, none, some, List, [], ◌∷◌}
use levity.Middleware.Chain.{get_middleware}
use levity.Models.Exchange.{
  Handler, OcppRequest, OcppResponse, MiddlewareClass, authorize_middleware,
  boot_notification_middleware, data_transfer_middleware,
  diagnostics_status_notification_middleware, firmware_status_notification_middleware,
  heartbeat_middleware, meter_values_middleware, start_transaction_middleware,
  status_notification_middleware, stop_transaction_middleware, orphaned_transaction_middleware,
  auto_remote_start_middleware,
}
use levity.Models.Rows.{ChargePoint, Message}
use levity.Models.World.{Exec, World, done, pure, raise, lift, ◌>>=◌, ◌>>◌}
use levity.Objects.Messages.{save_fields, save_message}
use levity.Platform.{Platform}
use levity.Publisher.{send_message_to_charge_point}
use levity.Serialization.{json_encode}
use levity.Services.Settings.{configured, load_ocpp_middleware}
use levity.Types.Action.{
  Action, authorize, boot_notification, data_transfer, diagnostics_status_notification,
  firmware_status_notification, heartbeat, meter_values, start_transaction, status_notification,
  stop_transaction,
}
use levity.Types.Error.{Result, ok, err, value_error, attribute_error}
use levity.Types.MessageType.{MessageType, call}
use levity.Value.{end}

-- DEFAULT_MIDDLEWARE_CONFIG.get((action, message_type), [])
unfoldable pub default_middleware : Action → MessageType → List MiddlewareClass
default_middleware authorize call = authorize_middleware ∷ []
default_middleware boot_notification call = boot_notification_middleware ∷ []
default_middleware data_transfer call = data_transfer_middleware ∷ []
default_middleware diagnostics_status_notification call =
    diagnostics_status_notification_middleware ∷ []
default_middleware firmware_status_notification call = firmware_status_notification_middleware ∷ []
default_middleware heartbeat call = heartbeat_middleware ∷ []
default_middleware meter_values call = meter_values_middleware ∷ []
default_middleware start_transaction call =
    orphaned_transaction_middleware ∷ start_transaction_middleware ∷ []
default_middleware status_notification call =
    auto_remote_start_middleware ∷ status_notification_middleware ∷ []
default_middleware stop_transaction call = stop_transaction_middleware ∷ []
default_middleware _ _ = []

abbrev or_default : List MiddlewareClass → Option (List MiddlewareClass) → List MiddlewareClass
or_default d none = d
or_default d (some classes) = classes

-- `Action(message.action)`
unfoldable pub action_of : Message → Result Action
action_of m = elim m.action [ none ↦ err value_error | some a ↦ ok a ]

-- `middleware.handle`, which None lacks
unfoldable pub handler_of : Option Handler → Result Handler
handler_of none = err attribute_error
handler_of (some h) = ok h

module _ ⦃p : Platform⦄ where
  -- The classes that serve a message.
  unfoldable pub middleware_classes : Message → Result (List MiddlewareClass)
  middleware_classes message = elim (action_of message) [
    | err e ↦ err e
    | ok a ↦ elim load_ocpp_middleware [
      | err e ↦ err e
      | ok config ↦ ok (
          or_default (default_middleware a message.message_type)
            (configured a message.message_type config))
    ]
  ]

  -- `for side_effect_message in res.side_effects`
  unfoldable pub send_side_effects : ChargePoint → List Message → Exec (Unit {0})
  send_side_effects charge_point [] = pure tt
  send_side_effects charge_point (m ∷ ms) = do
    save_message m
    send_message_to_charge_point charge_point m
    send_side_effects charge_point ms

  -- What follows the chain: the answer is made serializable, saved, linked and sent, and after it
  -- the side effects.
  unfoldable pub deliver : ChargePoint → Message → OcppResponse → Exec (Unit {0})
  deliver charge_point message res = do
    let answer = record (res.message) { content = json_encode res.message.content }
    save_message answer
    save_fields message (λ row. record row { reply = some answer.id })
    send_message_to_charge_point charge_point answer
    send_side_effects charge_point res.side_effects

  unfoldable pub handle_call : ChargePoint → Message → Exec (Unit {0})
  handle_call charge_point message = do
    classes ← lift (middleware_classes message)
    middleware ← lift (get_middleware classes)
    handle ← lift (handler_of middleware)
    res ← handle (record { message = message; charge_point = charge_point; extra = end })
    deliver charge_point message res
