-- ===== src/Types/ChargePointError.antt =====
-- be/ocpp/types/charge_point_error.py
use levity.Prelude.{String, List, [], ◌∷◌, ◌≡◌, refl}
use levity.Types.Error.{Result, ok}
use levity.Types.ModelEnum.{of_value}
use levity.Value.{Value, str}

pub data ChargePointError : Type 0 where
  connector_lock_failure ev_communication_error ground_failure high_temperature : ChargePointError
  internal_error local_list_conflict no_error other_error : ChargePointError
  over_current_failure over_voltage power_meter_failure power_switch_failure : ChargePointError
  reader_failure reset_failure under_voltage weak_signal : ChargePointError

unfoldable pub charge_point_error_value : ChargePointError → String
charge_point_error_value connector_lock_failure = "ConnectorLockFailure"
charge_point_error_value ev_communication_error = "EVCommunicationError"
charge_point_error_value ground_failure = "GroundFailure"
charge_point_error_value high_temperature = "HighTemperature"
charge_point_error_value internal_error = "InternalError"
charge_point_error_value local_list_conflict = "LocalListConflict"
charge_point_error_value no_error = "NoError"
charge_point_error_value other_error = "OtherError"
charge_point_error_value over_current_failure = "OverCurrentFailure"
charge_point_error_value over_voltage = "OverVoltage"
charge_point_error_value power_meter_failure = "PowerMeterFailure"
charge_point_error_value power_switch_failure = "PowerSwitchFailure"
charge_point_error_value reader_failure = "ReaderFailure"
charge_point_error_value reset_failure = "ResetFailure"
charge_point_error_value under_voltage = "UnderVoltage"
charge_point_error_value weak_signal = "WeakSignal"

unfoldable pub charge_point_error_members : List ChargePointError
charge_point_error_members =
    connector_lock_failure ∷ ev_communication_error ∷ ground_failure ∷ high_temperature
    ∷ internal_error ∷ local_list_conflict ∷ no_error ∷ other_error ∷ over_current_failure
    ∷ over_voltage ∷ power_meter_failure ∷ power_switch_failure ∷ reader_failure ∷ reset_failure
    ∷ under_voltage ∷ weak_signal ∷ []

-- `ChargePointError(v)`
unfoldable pub parse_charge_point_error : Value → Result ChargePointError
unfolding of_value charge_point_error_value charge_point_error_members
parse_charge_point_error = of_value charge_point_error_value charge_point_error_members

-- Every member is found again by its value.
pub parse-value_charge_point_error :
    (a : ChargePointError) → parse_charge_point_error (str (charge_point_error_value a)) ≡ ok a
unfolding parse_charge_point_error
parse-value_charge_point_error connector_lock_failure = refl
parse-value_charge_point_error ev_communication_error = refl
parse-value_charge_point_error ground_failure = refl
parse-value_charge_point_error high_temperature = refl
parse-value_charge_point_error internal_error = refl
parse-value_charge_point_error local_list_conflict = refl
parse-value_charge_point_error no_error = refl
parse-value_charge_point_error other_error = refl
parse-value_charge_point_error over_current_failure = refl
parse-value_charge_point_error over_voltage = refl
parse-value_charge_point_error power_meter_failure = refl
parse-value_charge_point_error power_switch_failure = refl
parse-value_charge_point_error reader_failure = refl
parse-value_charge_point_error reset_failure = refl
parse-value_charge_point_error under_voltage = refl
parse-value_charge_point_error weak_signal = refl
