-- ===== src/Wire.antt =====
-- be/ocpp/models/message.py, `to_ocpp`: a message as the envelope that goes to the websocket server.
use levity.Prelude.{Option, none, some, pos, if◌then◌else◌}
use levity.Types.Action.{Action, action_value, actor_type_value}
use levity.Types.ErrorCode.{ErrorCode, error_code_value}
use levity.Types.MessageType.{call, call_result, call_error, message_type_value, same_message_type}
use levity.Types.Error.{Result, ok, err, value_error}
use levity.Models.Rows.{Message}
use levity.Value.{Value, num, str, arr, obj, nil, cons, end, field, or_else}

-- `str(x)` of an optional member
unfoldable pub action_text : Option Action → Value
unfolding action_value
action_text none = str "None"
action_text (some a) = str (action_value a)

unfoldable pub error_code_text : Option ErrorCode → Value
unfolding error_code_value
error_code_text none = str "None"
error_code_text (some e) = str (error_code_value e)

abbrev type_number : Message → Value
type_number m = num (pos (message_type_value m.message_type)) 0

-- The OCPP frame. The branches test one after another, as in the source, where the third can never
-- be reached: `call_error` is `call_result`.
unfoldable pub ocpp_message : Message → Result Value
unfolding action_text error_code_text same_message_type message_type_value or_else
ocpp_message m =
    if same_message_type m.message_type call
    then ok (
        arr (
          cons (type_number m)
            (cons m.unique_id (cons (action_text m.action) (cons m.content nil)))))
    else if same_message_type m.message_type call_result
    then ok (arr (cons (type_number m) (cons m.unique_id (cons m.content nil))))
    else if same_message_type m.message_type call_error
    then ok (
        arr (
          cons (type_number m) (
            cons m.unique_id (
              cons (error_code_text m.error_code)
                (cons (or_else m.error_description (str "")) (cons m.content nil))))))
    else err value_error

abbrev pub envelope : Message → Result Value → Result Value
envelope m (err e) = err e
envelope m (ok frame) = ok (
    obj (
      field "id" (str m.charge_point)
        (field "actor" (str (actor_type_value m.actor)) (field "message" frame end))))

unfoldable pub to_ocpp : Message → Result Value
unfolding ocpp_message actor_type_value
to_ocpp m = envelope m (ocpp_message m)
