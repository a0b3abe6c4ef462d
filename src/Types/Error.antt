-- ===== src/Types/Error.antt =====
-- The exceptions that reach the backend's handlers, and the result of code that may raise one.
pub data Error : Type 0 where
  value_error key_error index_error type_error attribute_error assertion_error : Error
  integrity_error data_error does_not_exist multiple_objects_returned : Error
  amqp_error improperly_configured import_error : Error

pub data Result {ℓ} (A : Type ℓ) : Type ℓ where
  ok : A → Result A
  err : Error → Result A
