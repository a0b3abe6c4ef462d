-- ===== src/Types/Reply.antt =====
-- be/ocpp/types/authorization_status.py
use levity.Prelude.{String, List, [], ◌∷◌, ◌≡◌, refl}
use levity.Types.Error.{Result, ok}
use levity.Types.ModelEnum.{of_value}
use levity.Value.{Value, str}

pub data AuthorizationStatus : Type 0 where
  accepted blocked expired invalid : AuthorizationStatus

unfoldable pub authorization_status_value : AuthorizationStatus → String
authorization_status_value accepted = "Accepted"
authorization_status_value blocked = "Blocked"
authorization_status_value expired = "Expired"
authorization_status_value invalid = "Invalid"

unfoldable pub authorization_status_members : List AuthorizationStatus
authorization_status_members = accepted ∷ blocked ∷ expired ∷ invalid ∷ []

-- `AuthorizationStatus(v)`
unfoldable pub parse_authorization_status : Value → Result AuthorizationStatus
unfolding of_value authorization_status_value authorization_status_members
parse_authorization_status = of_value authorization_status_value authorization_status_members

-- Every member is found again by its value.
pub parse-value_authorization_status :
    (a : AuthorizationStatus)
    → parse_authorization_status (str (authorization_status_value a)) ≡ ok a
unfolding parse_authorization_status
parse-value_authorization_status accepted = refl
parse-value_authorization_status blocked = refl
parse-value_authorization_status expired = refl
parse-value_authorization_status invalid = refl
