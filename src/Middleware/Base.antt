-- ===== src/Middleware/Base.antt =====
-- be/ocpp/services/ocpp/base.py: the handler at the end of every chain, and what handlers share.
use levity.Prelude.{String, Bool, Option, none, some, [], str_eq}
use levity.Dict.{update}
use levity.Models.Exchange.{Handler, OcppResponse}
use levity.Models.Rows.{Message}
use levity.Models.World.{Exec, pure, lift, assert, ◌>>=◌}
use levity.Objects.Messages.{create_message}
use levity.Platform.{Platform}
use levity.Types.Action.{Action, action_value, central_system}
use levity.Types.Error.{Result, ok, err, value_error}
use levity.Types.MessageType.{call_result}
use levity.Value.{Value, null, str, obj, enum_member, Fields, end}

-- `Action(message.action) == action`
unfoldable pub is_action : Action → Option Action → Result Bool
is_action a none = err value_error
is_action a (some b) = ok (str_eq (action_value b) (action_value a))

-- `assert Action(message.action) == action`
unfoldable pub assert_action : Action → Message → Exec (Unit {0})
assert_action a m = do same ← lift (is_action a m.action); assert same

-- `res.message.data.update(…)`
unfoldable pub update_data : OcppResponse → Fields → Exec OcppResponse
update_data res fields = do
  content ← lift (update res.message.content fields)
  pure (record res { message = record (res.message) { content = content } })

-- An enum member that carries a text.
abbrev pub member : String → Value
member t = enum_member (str t)

-- The empty answer to a request, before it has a key.
abbrev pub blank_response : Message → Message
blank_response m = record {
  id = 0;
  charge_point = m.charge_point;
  transaction = none;
  message_type = call_result;
  unique_id = m.unique_id;
  unique_key = "";
  actor = central_system;
  action = none;
  error_code = none;
  error_description = null;
  content = obj end;
  reply = none;
}

module _ ⦃p : Platform⦄ where
  -- ResponseMiddleware
  unfoldable pub handle_response : Handler
  handle_response req = do
    message ← create_message (blank_response req.message)
    pure (record { message = message; transaction = none; side_effects = []; extra = end })
