-- ===== src/Types/MessageType.antt =====
-- be/ocpp/types/message_type.py. Two names with one value are one member of a Python enumeration:
-- `call_error = 3` is an alias of `call_result`, and no member has the value 4.
use levity.Prelude.{ℕ, Bool, true, false, if◌then◌else◌}
use levity.Types.Error.{Result, ok, err, value_error}
use levity.Value.{Value, is_number}

pub data MessageType : Type 0 where
  call call_result : MessageType

abbrev pub call_error : MessageType
call_error = call_result

-- `int(message_type)`
unfoldable pub message_type_value : MessageType → ℕ
message_type_value call = 2
message_type_value call_result = 3

-- `a == b` on members
unfoldable pub same_message_type : MessageType → MessageType → Bool
same_message_type call call = true
same_message_type call_result call_result = true
same_message_type _ _ = false

-- `MessageType(v)`
unfoldable pub parse_message_type : Value → Result MessageType
unfolding is_number
parse_message_type v =
    if is_number 2 v then ok call else if is_number 3 v then ok call_result else err value_error
