-- ===== src/Types/Action.antt =====
-- be/ocpp/types/action.py, actor_type.py and websocket_event_type.py
use levity.Prelude.{String, List, [], ◌∷◌, ◌≡◌, refl}
use levity.Types.Error.{Result, ok}
use levity.Types.ModelEnum.{of_value}
use levity.Value.{Value, str}

pub data Action : Type 0 where
  authorize boot_notification cancel_reservation change_availability : Action
  change_configuration clear_cache clear_charging_profile data_transfer : Action
  diagnostics_status_notification firmware_status_notification get_composite_schedule
        get_configuration :
      Action
  get_diagnostics get_local_list_version heartbeat meter_values : Action
  remote_start_transaction remote_stop_transaction reserve_now reset : Action
  send_local_list set_charging_profile start_transaction status_notification : Action
  stop_transaction trigger_message unlock_connector update_firmware : Action

unfoldable pub action_value : Action → String
action_value authorize = "Authorize"
action_value boot_notification = "BootNotification"
action_value cancel_reservation = "CancelReservation"
action_value change_availability = "ChangeAvailability"
action_value change_configuration = "ChangeConfiguration"
action_value clear_cache = "ClearCache"
action_value clear_charging_profile = "ClearChargingProfile"
action_value data_transfer = "DataTransfer"
action_value diagnostics_status_notification = "DiagnosticsStatusNotification"
action_value firmware_status_notification = "FirmwareStatusNotification"
action_value get_composite_schedule = "GetCompositeSchedule"
action_value get_configuration = "GetConfiguration"
action_value get_diagnostics = "GetDiagnostics"
action_value get_local_list_version = "GetLocalListVersion"
action_value heartbeat = "Heartbeat"
action_value meter_values = "MeterValues"
action_value remote_start_transaction = "RemoteStartTransaction"
action_value remote_stop_transaction = "RemoteStopTransaction"
action_value reserve_now = "ReserveNow"
action_value reset = "Reset"
action_value send_local_list = "SendLocalList"
action_value set_charging_profile = "SetChargingProfile"
action_value start_transaction = "StartTransaction"
action_value status_notification = "StatusNotification"
action_value stop_transaction = "StopTransaction"
action_value trigger_message = "TriggerMessage"
action_value unlock_connector = "UnlockConnector"
action_value update_firmware = "UpdateFirmware"

unfoldable pub action_members : List Action
action_members =
    authorize ∷ boot_notification ∷ cancel_reservation ∷ change_availability ∷ change_configuration
    ∷ clear_cache ∷ clear_charging_profile ∷ data_transfer ∷ diagnostics_status_notification
    ∷ firmware_status_notification ∷ get_composite_schedule ∷ get_configuration ∷ get_diagnostics
    ∷ get_local_list_version ∷ heartbeat ∷ meter_values ∷ remote_start_transaction
    ∷ remote_stop_transaction ∷ reserve_now ∷ reset ∷ send_local_list ∷ set_charging_profile
    ∷ start_transaction ∷ status_notification ∷ stop_transaction ∷ trigger_message
    ∷ unlock_connector ∷ update_firmware ∷ []

-- `Action(v)`
unfoldable pub parse_action : Value → Result Action
unfolding of_value action_value action_members
parse_action = of_value action_value action_members

-- Every member is found again by its value.
pub parse-value_action : (a : Action) → parse_action (str (action_value a)) ≡ ok a
unfolding parse_action
parse-value_action authorize = refl
parse-value_action boot_notification = refl
parse-value_action cancel_reservation = refl
parse-value_action change_availability = refl
parse-value_action change_configuration = refl
parse-value_action clear_cache = refl
parse-value_action clear_charging_profile = refl
parse-value_action data_transfer = refl
parse-value_action diagnostics_status_notification = refl
parse-value_action firmware_status_notification = refl
parse-value_action get_composite_schedule = refl
parse-value_action get_configuration = refl
parse-value_action get_diagnostics = refl
parse-value_action get_local_list_version = refl
parse-value_action heartbeat = refl
parse-value_action meter_values = refl
parse-value_action remote_start_transaction = refl
parse-value_action remote_stop_transaction = refl
parse-value_action reserve_now = refl
parse-value_action reset = refl
parse-value_action send_local_list = refl
parse-value_action set_charging_profile = refl
parse-value_action start_transaction = refl
parse-value_action status_notification = refl
parse-value_action stop_transaction = refl
parse-value_action trigger_message = refl
parse-value_action unlock_connector = refl
parse-value_action update_firmware = refl

pub data ActorType : Type 0 where
  charge_point central_system : ActorType

unfoldable pub actor_type_value : ActorType → String
actor_type_value charge_point = "cp"
actor_type_value central_system = "cs"

unfoldable pub actor_type_members : List ActorType
actor_type_members = charge_point ∷ central_system ∷ []

-- `ActorType(v)`
unfoldable pub parse_actor_type : Value → Result ActorType
unfolding of_value actor_type_value actor_type_members
parse_actor_type = of_value actor_type_value actor_type_members

-- Every member is found again by its value.
pub parse-value_actor_type : (a : ActorType) → parse_actor_type (str (actor_type_value a)) ≡ ok a
unfolding parse_actor_type
parse-value_actor_type charge_point = refl
parse-value_actor_type central_system = refl

pub data WebsocketEventType : Type 0 where
  connect disconnect receive : WebsocketEventType

unfoldable pub websocket_event_type_value : WebsocketEventType → String
websocket_event_type_value connect = "connect"
websocket_event_type_value disconnect = "disconnect"
websocket_event_type_value receive = "receive"

unfoldable pub websocket_event_type_members : List WebsocketEventType
websocket_event_type_members = connect ∷ disconnect ∷ receive ∷ []

-- `WebsocketEventType(v)`
unfoldable pub parse_websocket_event_type : Value → Result WebsocketEventType
unfolding of_value websocket_event_type_value websocket_event_type_members
parse_websocket_event_type = of_value websocket_event_type_value websocket_event_type_members

-- Every member is found again by its value.
pub parse-value_websocket_event_type :
    (a : WebsocketEventType)
    → parse_websocket_event_type (str (websocket_event_type_value a)) ≡ ok a
unfolding parse_websocket_event_type
parse-value_websocket_event_type connect = refl
parse-value_websocket_event_type disconnect = refl
parse-value_websocket_event_type receive = refl
