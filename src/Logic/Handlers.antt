-- ===== src/Logic/Handlers.antt =====
-- Properties of the state, through the middleware of be/ocpp/services/ocpp.
use levity.Prelude.{ℕ, Bool, some, List, [], ◌∷◌}
use levity.Logic.Keeps.{Keeps, Keeps-bind}
use levity.Dict.{subscript, elements}
use levity.Objects.Meters.{create_from_json}
use levity.Logic.Leaves.{
  Leaves, Stops, leaf_rules, create_message-Keeps, save_transaction_id-Keeps,
  transaction_from_data-Keeps, create_from_json-Keeps,
}
use levity.Middleware.Base.{assert_action, update_data, handle_response}
use levity.Middleware.Core.{
  handle_authorize, handle_data_transfer, handle_diagnostics_status_notification,
  handle_firmware_status_notification, handle_heartbeat,
}
use levity.Middleware.Metering.{
  record_samples, record_meter_values, handle_meter_values, finish_start, handle_stop_transaction,
}
use levity.Middleware.Orphans.{stop_orphan, stop_orphans}
use levity.Middleware.Profile.{
  save_hardware, handle_boot_notification, save_status, handle_status_notification,
}
use levity.Middleware.RemoteStart.{add_remote_start, handle_auto_remote_start}
use levity.Models.Exchange.{Handler, OcppRequest, OcppResponse}
use levity.Models.Rows.{Message, Transaction}
use levity.Models.World.{World, lift}
use levity.Platform.{Platform}
use levity.Types.Action.{Action}
use levity.Value.{Value, Fields, Items, nil, cons}

abbrev pub HandlerKeeps : (World → Type 0) → Handler → Type 0
HandlerKeeps P h = (req : OcppRequest) → Keeps P (h req)

module _ ⦃p : Platform⦄ {P : World → Type 0} ⦃leaves : Leaves P⦄ where
  pub assert_action-Keeps : (a : Action) (m : Message) → Keeps P (assert_action a m)
  unfolding assert_action
  assert_action-Keeps a m = search leaf_rules depth 20

  pub update_data-Keeps : (res : OcppResponse) (fs : Fields) → Keeps P (update_data res fs)
  unfolding update_data
  update_data-Keeps res fs = search leaf_rules depth 20

  pub handle_response-Keeps : HandlerKeeps P handle_response
  unfolding handle_response
  handle_response-Keeps req = search (leaf_rules, create_message-Keeps) depth 20

  pub record_samples-Keeps :
      (t : ℕ) (is_final : Bool) (v : Value) (samples : Items)
      → Keeps P (record_samples t is_final v samples)
  unfolding record_samples
  record_samples-Keeps t is_final v nil = search leaf_rules
  record_samples-Keeps t is_final v (cons s ss) =
      Keeps-bind (lift (subscript v "timestamp")) _ (search leaf_rules) (λ timestamp.
        Keeps-bind (create_from_json t timestamp s is_final) _ (search create_from_json-Keeps)
          (λ row. record_samples-Keeps t is_final v ss))

  pub record_meter_values-Keeps :
      (t : ℕ) (is_final : Bool) (vs : Items) → Keeps P (record_meter_values t is_final vs)
  unfolding record_meter_values
  record_meter_values-Keeps t is_final nil = search leaf_rules
  record_meter_values-Keeps t is_final (cons v vs) =
      Keeps-bind (lift (subscript v "sampledValue")) _ (search leaf_rules) (λ sampled.
        Keeps-bind (lift (elements sampled)) _ (search leaf_rules) (λ samples.
          Keeps-bind (record_samples t is_final v samples) _ (search record_samples-Keeps)
            (λ u. record_meter_values-Keeps t is_final vs)))

  pub save_hardware-Keeps : (req : OcppRequest) → Keeps P (save_hardware req)
  unfolding save_hardware
  save_hardware-Keeps req = search leaf_rules depth 40

  pub save_status-Keeps : (req : OcppRequest) → Keeps P (save_status req)
  unfolding save_status
  save_status-Keeps req = search leaf_rules depth 40

  pub add_remote_start-Keeps :
      (req : OcppRequest) (res : OcppResponse) → Keeps P (add_remote_start req res)
  unfolding add_remote_start
  add_remote_start-Keeps req res = search (leaf_rules, create_message-Keeps) depth 20

module _ ⦃p : Platform⦄ {P : World → Type 0} ⦃leaves : Leaves P⦄ ⦃stopping : Stops P⦄ where
  stop_orphan-Keeps : (t : Transaction) → Keeps P (stop_orphan t)
  unfolding stop_orphan
  stop_orphan-Keeps t = search leaf_rules depth 20

  pub stop_orphans-Keeps : (ts : List Transaction) → Keeps P (stop_orphans ts)
  unfolding stop_orphans
  stop_orphans-Keeps [] = search leaf_rules
  stop_orphans-Keeps (t ∷ ts) =
      Keeps-bind (stop_orphan t) _ (stop_orphan-Keeps t) (λ u. stop_orphans-Keeps ts)

pub ruleset handler_rules = (
  leaf_rules, assert_action-Keeps, update_data-Keeps, record_meter_values-Keeps,
  transaction_from_data-Keeps, save_hardware-Keeps, save_status-Keeps, add_remote_start-Keeps,
)

module _ ⦃p : Platform⦄ {P : World → Type 0} ⦃leaves : Leaves P⦄ (next : Handler)
    (keeps : HandlerKeeps P next) where
  pub handle_authorize-Keeps : HandlerKeeps P (handle_authorize next)
  unfolding handle_authorize
  handle_authorize-Keeps req = search (handler_rules, keeps) depth 20

  pub handle_data_transfer-Keeps : HandlerKeeps P (handle_data_transfer next)
  unfolding handle_data_transfer
  handle_data_transfer-Keeps req = search (handler_rules, keeps) depth 20

  pub handle_diagnostics_status_notification-Keeps :
      HandlerKeeps P (handle_diagnostics_status_notification next)
  unfolding handle_diagnostics_status_notification
  handle_diagnostics_status_notification-Keeps req = keeps req

  pub handle_firmware_status_notification-Keeps :
      HandlerKeeps P (handle_firmware_status_notification next)
  unfolding handle_firmware_status_notification
  handle_firmware_status_notification-Keeps req = keeps req

  pub handle_heartbeat-Keeps : HandlerKeeps P (handle_heartbeat next)
  unfolding handle_heartbeat
  handle_heartbeat-Keeps req = search (handler_rules, keeps) depth 20

  pub handle_boot_notification-Keeps : HandlerKeeps P (handle_boot_notification next)
  unfolding handle_boot_notification
  handle_boot_notification-Keeps req = search (handler_rules, keeps) depth 20

  pub handle_status_notification-Keeps : HandlerKeeps P (handle_status_notification next)
  unfolding handle_status_notification
  handle_status_notification-Keeps req = search (handler_rules, keeps) depth 20

  pub handle_auto_remote_start-Keeps : HandlerKeeps P (handle_auto_remote_start next)
  unfolding handle_auto_remote_start
  handle_auto_remote_start-Keeps req = search (handler_rules, keeps) depth 20

  pub finish_start-Keeps : (req : OcppRequest) (t : Transaction) → Keeps P (finish_start next req t)
  unfolding finish_start
  finish_start-Keeps req t =
      search (handler_rules, save_transaction_id-Keeps req.message (some t.id), keeps) depth 20

  pub handle_meter_values-Keeps : HandlerKeeps P (handle_meter_values next)
  unfolding handle_meter_values
  handle_meter_values-Keeps req = search (handler_rules, keeps) depth 20

module _ ⦃p : Platform⦄ {P : World → Type 0} ⦃leaves : Leaves P⦄ ⦃stopping : Stops P⦄
    (next : Handler) (keeps : HandlerKeeps P next) where
  pub handle_stop_transaction-Keeps : HandlerKeeps P (handle_stop_transaction next)
  unfolding handle_stop_transaction
  handle_stop_transaction-Keeps req = search (handler_rules, keeps) depth 20
