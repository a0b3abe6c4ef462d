-- ===== src/Types/ErrorCode.antt =====
-- be/ocpp/types/error_code.py
use levity.Prelude.{String, List, [], ◌∷◌, ◌≡◌, refl}
use levity.Types.Error.{Result, ok}
use levity.Types.ModelEnum.{of_value}
use levity.Value.{Value, str}

pub data ErrorCode : Type 0 where
  not_implemented not_supported internal_error protocol_error : ErrorCode
  security_error formation_violation property_constraint_violation occurence_constraint_violation :
      ErrorCode
  type_constraint_violation generic_error : ErrorCode

unfoldable pub error_code_value : ErrorCode → String
error_code_value not_implemented = "NotImplemented"
error_code_value not_supported = "NotSupported"
error_code_value internal_error = "InternalError"
error_code_value protocol_error = "ProtocolError"
error_code_value security_error = "SecurityError"
error_code_value formation_violation = "FormationViolation"
error_code_value property_constraint_violation = "PropertyConstraintViolation"
error_code_value occurence_constraint_violation = "OccurenceConstraintViolation"
error_code_value type_constraint_violation = "TypeConstraintViolation"
error_code_value generic_error = "GenericError"

unfoldable pub error_code_members : List ErrorCode
error_code_members =
    not_implemented ∷ not_supported ∷ internal_error ∷ protocol_error ∷ security_error
    ∷ formation_violation ∷ property_constraint_violation ∷ occurence_constraint_violation
    ∷ type_constraint_violation ∷ generic_error ∷ []

-- `ErrorCode(v)`
unfoldable pub parse_error_code : Value → Result ErrorCode
unfolding of_value error_code_value error_code_members
parse_error_code = of_value error_code_value error_code_members

-- Every member is found again by its value.
pub parse-value_error_code : (a : ErrorCode) → parse_error_code (str (error_code_value a)) ≡ ok a
unfolding parse_error_code
parse-value_error_code not_implemented = refl
parse-value_error_code not_supported = refl
parse-value_error_code internal_error = refl
parse-value_error_code protocol_error = refl
parse-value_error_code security_error = refl
parse-value_error_code formation_violation = refl
parse-value_error_code property_constraint_violation = refl
parse-value_error_code occurence_constraint_violation = refl
parse-value_error_code type_constraint_violation = refl
parse-value_error_code generic_error = refl
