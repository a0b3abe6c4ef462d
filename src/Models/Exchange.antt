-- ===== src/Models/Exchange.antt =====
-- be/ocpp/services/ocpp/base.py: what a middleware is given and what it returns.
use levity.Prelude.{ℕ, String, List, Option}
use levity.Models.Rows.{ChargePoint, Message}
use levity.Models.World.{Exec}
use levity.Value.{Fields}

-- `charge_point` is the object behind `message.charge_point`.
pub record OcppRequest : Type 0 where
  pub message : Message
  pub charge_point : ChargePoint
  pub extra : Fields

pub record OcppResponse : Type 0 where
  pub message : Message
  pub transaction : Option ℕ
  pub side_effects : List Message
  pub extra : Fields

abbrev pub Handler : Type 0
Handler = OcppRequest → Exec OcppResponse

-- The middleware classes that a configuration can name; `custom` is one from outside the package,
-- by its import path.
pub data MiddlewareClass : Type 0 where
  authorize_middleware boot_notification_middleware data_transfer_middleware : MiddlewareClass
  diagnostics_status_notification_middleware : MiddlewareClass
  firmware_status_notification_middleware heartbeat_middleware : MiddlewareClass
  meter_values_middleware start_transaction_middleware : MiddlewareClass
  status_notification_middleware stop_transaction_middleware : MiddlewareClass
  orphaned_transaction_middleware auto_remote_start_middleware : MiddlewareClass
  custom : String → MiddlewareClass
