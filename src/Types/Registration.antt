-- ===== src/Types/Registration.antt =====
-- be/ocpp/types/registration_status.py
use levity.Prelude.{String, List, [], ◌∷◌, ◌≡◌, refl}
use levity.Types.Error.{Result, ok}
use levity.Types.ModelEnum.{of_value}
use levity.Value.{Value, str}

pub data RegistrationStatus : Type 0 where
  accepted pending rejected : RegistrationStatus

unfoldable pub registration_status_value : RegistrationStatus → String
registration_status_value accepted = "Accepted"
registration_status_value pending = "Pending"
registration_status_value rejected = "Rejected"

unfoldable pub registration_status_members : List RegistrationStatus
registration_status_members = accepted ∷ pending ∷ rejected ∷ []

-- `RegistrationStatus(v)`
unfoldable pub parse_registration_status : Value → Result RegistrationStatus
unfolding of_value registration_status_value registration_status_members
parse_registration_status = of_value registration_status_value registration_status_members

-- Every member is found again by its value.
pub parse-value_registration_status :
    (a : RegistrationStatus) → parse_registration_status (str (registration_status_value a)) ≡ ok a
unfolding parse_registration_status
parse-value_registration_status accepted = refl
parse-value_registration_status pending = refl
parse-value_registration_status rejected = refl
