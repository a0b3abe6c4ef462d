-- ===== src/Types/Status.antt =====
-- be/ocpp/types/charge_point_status.py
use levity.Prelude.{String, List, [], ◌∷◌, ◌≡◌, refl}
use levity.Types.Error.{Result, ok}
use levity.Types.ModelEnum.{of_value}
use levity.Value.{Value, str}

pub data ChargePointStatus : Type 0 where
  available preparing charging suspended_evse : ChargePointStatus
  suspended_ev finishing reserved : ChargePointStatus

unfoldable pub charge_point_status_value : ChargePointStatus → String
charge_point_status_value available = "Available"
charge_point_status_value preparing = "Preparing"
charge_point_status_value charging = "Charging"
charge_point_status_value suspended_evse = "SuspendedEVSE"
charge_point_status_value suspended_ev = "SuspendedEV"
charge_point_status_value finishing = "Finishing"
charge_point_status_value reserved = "Reserved"

unfoldable pub charge_point_status_members : List ChargePointStatus
charge_point_status_members =
    available ∷ preparing ∷ charging ∷ suspended_evse ∷ suspended_ev ∷ finishing ∷ reserved ∷ []

-- `ChargePointStatus(v)`
unfoldable pub parse_charge_point_status : Value → Result ChargePointStatus
unfolding of_value charge_point_status_value charge_point_status_members
parse_charge_point_status = of_value charge_point_status_value charge_point_status_members

-- Every member is found again by its value.
pub parse-value_charge_point_status :
    (a : ChargePointStatus) → parse_charge_point_status (str (charge_point_status_value a)) ≡ ok a
unfolding parse_charge_point_status
parse-value_charge_point_status available = refl
parse-value_charge_point_status preparing = refl
parse-value_charge_point_status charging = refl
parse-value_charge_point_status suspended_evse = refl
parse-value_charge_point_status suspended_ev = refl
parse-value_charge_point_status finishing = refl
parse-value_charge_point_status reserved = refl
