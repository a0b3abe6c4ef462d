-- ===== src/Types/Reason.antt =====
-- be/ocpp/types/stop_reason.py, error_code.py and charge_point_error.py
use levity.Prelude.{String, List, [], ◌∷◌, ◌≡◌, refl}
use levity.Types.Error.{Result, ok}
use levity.Types.ModelEnum.{of_value}
use levity.Value.{Value, str}

pub data StopReason : Type 0 where
  emergency_stop ev_disconnected hard_reset local : StopReason
  other power_loss reboot remote : StopReason
  soft_reset unlock_command de_authorized : StopReason

unfoldable pub stop_reason_value : StopReason → String
stop_reason_value emergency_stop = "EmergencyStop"
stop_reason_value ev_disconnected = "EVDisconnected"
stop_reason_value hard_reset = "HardReset"
stop_reason_value local = "Local"
stop_reason_value other = "Other"
stop_reason_value power_loss = "PowerLoss"
stop_reason_value reboot = "Reboot"
stop_reason_value remote = "Remote"
stop_reason_value soft_reset = "SoftReset"
stop_reason_value unlock_command = "UnlockCommand"
stop_reason_value de_authorized = "DeAuthorized"

unfoldable pub stop_reason_members : List StopReason
stop_reason_members =
    emergency_stop ∷ ev_disconnected ∷ hard_reset ∷ local ∷ other ∷ power_loss ∷ reboot ∷ remote
    ∷ soft_reset ∷ unlock_command ∷ de_authorized ∷ []

-- `StopReason(v)`
unfoldable pub parse_stop_reason : Value → Result StopReason
unfolding of_value stop_reason_value stop_reason_members
parse_stop_reason = of_value stop_reason_value stop_reason_members

-- Every member is found again by its value.
pub parse-value_stop_reason :
    (a : StopReason) → parse_stop_reason (str (stop_reason_value a)) ≡ ok a
unfolding parse_stop_reason
parse-value_stop_reason emergency_stop = refl
parse-value_stop_reason ev_disconnected = refl
parse-value_stop_reason hard_reset = refl
parse-value_stop_reason local = refl
parse-value_stop_reason other = refl
parse-value_stop_reason power_loss = refl
parse-value_stop_reason reboot = refl
parse-value_stop_reason remote = refl
parse-value_stop_reason soft_reset = refl
parse-value_stop_reason unlock_command = refl
parse-value_stop_reason de_authorized = refl
