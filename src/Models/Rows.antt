-- ===== src/Models/Rows.antt =====
-- The model classes of be/ocpp/models, a record for each. A foreign key is the key of its row. The
-- columns `created_at` and `updated_at` that Timestamped adds are left out: no code reads them.
use levity.Prelude.{ℕ, String, Bool, Option, ℤ, str_eq, ◌&&◌, is_none}
use levity.Types.Action.{Action, ActorType, charge_point, central_system, WebsocketEventType}
use levity.Types.ErrorCode.{ErrorCode}
use levity.Types.MessageType.{MessageType}
use levity.Types.Reason.{StopReason}
use levity.Types.Status.{ChargePointStatus}
use levity.Value.{Value}

pub record ChargePoint : Type 0 where
  pub id : String
  pub name : String
  pub status : Option ChargePointStatus
  pub error_code : Option String
  pub is_connected : Bool
  pub vendor_error_code : String
  pub vendor_status_info : String
  pub vendor_status_id : String
  pub ws_queue : String
  pub hw_vendor : String
  pub hw_model : String
  pub hw_serial : String
  pub hw_firmware : String
  pub hw_iccid : String
  pub hw_imsi : String
  pub last_heartbeat_at : Option ℕ
  pub last_boot_at : Option ℕ
  pub last_connect_at : Option ℕ
  pub last_tx_start_at : Option ℕ
  pub last_tx_stop_at : Option ℕ

pub record Transaction : Type 0 where
  pub id : ℕ
  pub charge_point : String
  pub started_at : Option ℕ
  pub stopped_at : Option ℕ
  pub connector_id : String
  pub id_tag : String
  pub meter_start : ℤ
  pub meter_stop : ℤ
  pub meter_correction : ℤ
  pub stop_reason : Option StopReason

-- `unique_id` is the instance's attribute, as it came off the wire, and `unique_key` the text that
-- its column stores.
pub record Message : Type 0 where
  pub id : ℕ
  pub charge_point : String
  pub transaction : Option ℕ
  pub message_type : MessageType
  pub unique_id : Value
  pub unique_key : String
  pub actor : ActorType
  pub action : Option Action
  pub error_code : Option ErrorCode
  pub error_description : Value
  pub content : Value
  pub reply : Option ℕ

pub record MeterValue : Type 0 where
  pub id : ℕ
  pub timestamp : ℕ
  pub transaction : ℕ
  pub context : String
  pub format : String
  pub location : String
  pub measurand : String
  pub phase : String
  pub unit : String
  pub value : Value
  pub is_final : Bool
  pub is_incorrect : Bool

pub record WebsocketEvent : Type 0 where
  pub id : ℕ
  pub charge_point : String
  pub type : WebsocketEventType
  pub timestamp : ℕ

unfoldable pub same_actor : ActorType → ActorType → Bool
same_actor charge_point charge_point = Bool.true
same_actor central_system central_system = Bool.true
same_actor _ _ = Bool.false

-- `unique_together = ("actor", "unique_id")`: two rows that may not stand side by side.
unfoldable pub clash : Message → Message → Bool
unfolding same_actor
clash m n = same_actor m.actor n.actor && str_eq m.unique_key n.unique_key

-- The rows of an unstopped transaction of one charge point.
unfoldable pub is_open_for : String → Transaction → Bool
is_open_for cp t = str_eq t.charge_point cp && is_none t.stopped_at
