-- ===== src/Middleware/Chain.antt =====
-- `get_middleware` of be/ocpp/services/charge_point_message_handler.py: the classes of a chain are
-- instantiated from the last to the first, each with the one built before it.
pub mod Build
use levity.Prelude.{Option, none, some, List, [], ◌∷◌, ◌++◌, map, reverse}
use levity.Middleware.Base.{handle_response}
use levity.Middleware.Core.{
  handle_authorize, handle_data_transfer, handle_diagnostics_status_notification,
  handle_firmware_status_notification, handle_heartbeat,
}
use levity.Middleware.Metering.{
  handle_meter_values, handle_start_transaction, handle_stop_transaction,
}
use levity.Middleware.Orphans.{handle_orphaned_transaction}
use levity.Middleware.Profile.{handle_boot_notification, handle_status_notification}
use levity.Middleware.RemoteStart.{handle_auto_remote_start}
use levity.Models.Exchange.{
  Handler, MiddlewareClass, authorize_middleware, boot_notification_middleware,
  data_transfer_middleware, diagnostics_status_notification_middleware,
  firmware_status_notification_middleware, heartbeat_middleware, meter_values_middleware,
  start_transaction_middleware, status_notification_middleware, stop_transaction_middleware,
  orphaned_transaction_middleware, auto_remote_start_middleware, custom,
}
use levity.Platform.{Platform}
use levity.Types.Error.{Result, ok, err, type_error}

-- An entry of the list of classes, with the ResponseMiddleware at its end.
pub data Link : Type 0 where
  layer : MiddlewareClass → Link
  response : Link

module _ ⦃p : Platform⦄ where
  unfoldable pub handle_class : MiddlewareClass → Handler → Handler
  handle_class authorize_middleware = handle_authorize
  handle_class boot_notification_middleware = handle_boot_notification
  handle_class data_transfer_middleware = handle_data_transfer
  handle_class diagnostics_status_notification_middleware = handle_diagnostics_status_notification
  handle_class firmware_status_notification_middleware = handle_firmware_status_notification
  handle_class heartbeat_middleware = handle_heartbeat
  handle_class meter_values_middleware = handle_meter_values
  handle_class start_transaction_middleware = handle_start_transaction
  handle_class status_notification_middleware = handle_status_notification
  handle_class stop_transaction_middleware = handle_stop_transaction
  handle_class orphaned_transaction_middleware = handle_orphaned_transaction
  handle_class auto_remote_start_middleware = handle_auto_remote_start
  handle_class (custom name) = p.custom_handle name

  -- `klass(*args)`: a layer wants the next handler, and ResponseMiddleware takes none.
  unfoldable pub instantiate : Link → Option Handler → Result Handler
  instantiate (layer c) (some next) = ok (handle_class c next)
  instantiate (layer c) none = err type_error
  instantiate response none = ok handle_response
  instantiate response (some next) = err type_error

  abbrev pub go_on :
      (Option Handler → Result (Option Handler)) → Result Handler → Result (Option Handler)
  go_on k (ok h) = k (some h)
  go_on k (err e) = err e

  -- The loop, over the reversed list, with `prev`.
  unfoldable pub build : List Link → Option Handler → Result (Option Handler)
  build [] prev = ok prev
  build (l ∷ ls) prev = go_on (build ls) (instantiate l prev)

  unfoldable pub get_middleware : List MiddlewareClass → Result (Option Handler)
  get_middleware classes = build (reverse (map layer classes ++ response ∷ [])) none
