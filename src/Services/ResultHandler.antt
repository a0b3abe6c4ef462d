-- ===== src/Services/ResultHandler.antt =====
-- be/ocpp/services/charge_point_message_handler.py: the handler of results, which also stands for
-- the handler of errors, and the choice of a message's handler.
pub mod Originating
pub mod Linking
use levity.Prelude.{Bool, true, false, some, str_eq, ◌&&◌}
use levity.Models.Rows.{ChargePoint, Message, same_actor}
use levity.Models.World.{Exec, World, done, pure, lift, reads, assert, ◌>>=◌, ◌>>◌}
use levity.Objects.Messages.{save_fields}
use levity.Platform.{Platform}
use levity.Services.CallHandler.{handle_call}
use levity.Types.Action.{ActorType, charge_point}
use levity.Types.MessageType.{MessageType, call, call_result, same_message_type}

-- `unique_id=message.unique_id, message_type=MessageType.call`
unfoldable pub is_call_of : Message → Message → Bool
is_call_of m n = str_eq n.unique_key m.unique_key && same_message_type n.message_type call

module _ ⦃p : Platform⦄ where
  unfoldable pub handle_call_result : Message → Exec (Unit {0})
  handle_call_result message = do
    originating_call ← reads (λ w. lift (p.message_table.get (is_call_of message) w.messages))
    save_fields originating_call (λ row. record row { reply = some message.id })
    save_fields message (λ row. record row { action = originating_call.action })
    pure tt

  -- MESSAGE_TYPE_HANDLERS[message_type].handle
  unfoldable pub handle_by_type : MessageType → ChargePoint → Message → Exec (Unit {0})
  handle_by_type call cp message = handle_call cp message
  handle_by_type call_result cp message = handle_call_result message

  unfoldable pub handle_message_from_charge_point : ChargePoint → Message → Exec (Unit {0})
  handle_message_from_charge_point cp message = do
    assert (same_actor message.actor charge_point)
    handle_by_type message.message_type cp message
