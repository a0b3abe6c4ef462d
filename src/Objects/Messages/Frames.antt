-- ===== src/Objects/Messages/Frames.antt =====
-- Frames and rows of be/ocpp/models/message.py: to_ocpp against from_occp, and what is refused.
use levity.Prelude.{String, ◌≡◌, refl, true, false, some, any, pos}
use levity.Dict.{subscript, first}
use levity.Models.Rows.{ChargePoint, Message, clash}
use levity.Models.World.{World, raised, created, ◌>>=◌}
use levity.Objects.Messages.{
  Frame, payload, unpack, unpack_call, unpack_call_result, from_occp, create_message,
  insert_message,
}
use levity.Platform.{Platform}
use levity.Types.Action.{Action, parse_action, parse-value_action}
use levity.Types.Error.{ok, value_error, integrity_error}
use levity.Types.MessageType.{
  MessageType, call, call_result, parse_message_type, message_type_value,
}
use levity.Value.{Value, null, num, arr, Items, nil, cons, is_number}
use levity.Wire.{ocpp_message, action_text}

module _ ⦃p : Platform⦄ where
  -- A frame whose type number is neither 2 nor 3, such as the 4 of an OCPP CALLERROR, raises
  -- ValueError: no row is written and nothing else changes.
  pub from_occp_unknown_type :
      (cp : ChargePoint) (event number : Value) (rest : Items) (w : World)
      → subscript event "message" ≡ ok (arr (cons number rest))
      → is_number 2 number ≡ false
      → is_number 3 number ≡ false
      → from_occp cp event w ≡ raised value_error w
  unfolding from_occp ◌>>=◌ first parse_message_type
  from_occp_unknown_type cp event number rest w frame not_call not_result =
      rw (frame, not_call, not_result)

-- The number of a message's type is read back as that type.
parse-message_type_value :
    (t : MessageType) → parse_message_type (num (pos (message_type_value t)) 0) ≡ ok t
unfolding parse_message_type message_type_value
parse-message_type_value call = refl
parse-message_type_value call_result = refl

-- What a receiver reads out of a frame: the type, the id, the action of a call, and the payload.
pub record ReadsBack (m : Message) (frame : Value) : Type 0 where
  pub number : Value
  pub parts : Frame
  pub has_type : first frame ≡ ok number
  pub same_type : parse_message_type number ≡ ok m.message_type
  pub unpacks : unpack m.message_type frame ≡ ok parts
  pub same_id : parts.unique_id ≡ m.unique_id
  pub same_action :
      (a : Action) → m.message_type ≡ call → m.action ≡ some a → parse_action parts.action ≡ ok a
  pub same_content : payload parts.rest ≡ m.content

read_back :
    (t : MessageType) (m : Message)
    → m.message_type ≡ t
    → (frame : Value) × (ocpp_message m ≡ ok frame) × ReadsBack m frame
unfolding ocpp_message unpack payload first parse_message_type message_type_value unpack_call
    unpack_call_result
read_back call m e = (
  arr (cons (num (pos 2) 0) (cons m.unique_id (cons (action_text m.action) (cons m.content nil)))),
  rw e,
  record {
    number = num (pos 2) 0;
    parts = record {
      unique_id = m.unique_id;
      action = action_text m.action;
      error_code = null;
      error_description = null;
      rest = cons m.content nil;
    };
    has_type = refl;
    same_type = rw e;
    unpacks = rw e;
    same_id = refl;
    same_action = λ a c named. rw named (parse-value_action a);
    same_content = refl;
  },
)
read_back call_result m e = (
  arr (cons (num (pos 3) 0) (cons m.unique_id (cons m.content nil))),
  rw e,
  record {
    number = num (pos 3) 0;
    parts = record {
      unique_id = m.unique_id;
      action = null;
      error_code = null;
      error_description = null;
      rest = cons m.content nil;
    };
    has_type = refl;
    same_type = rw e;
    unpacks = rw e;
    same_id = refl;
    same_action = λ a c named. cc;
    same_content = refl;
  },
)

-- Every message has a frame, and `from_occp` reads the message's type, unique id, payload and, of a
-- call, its action back from that frame.
pub ocpp_message-ReadsBack :
    (m : Message) → (frame : Value) × (ocpp_message m ≡ ok frame) × ReadsBack m frame
ocpp_message-ReadsBack m = read_back m.message_type m refl

module _ ⦃p : Platform⦄ where
  -- A message whose sender kind and unique id are in the table already, from whatever charge point,
  -- is refused with IntegrityError, and nothing changes.
  pub create_message-clash :
      (m : Message) (key : String) (stored : Value) (w : World)
      → p.char_field 128 m.unique_id ≡ ok key
      → p.json_field m.content ≡ ok stored
      → any (clash (record m { unique_key = key; content = stored })) w.messages ≡ true
      → create_message m w ≡ raised integrity_error w
  unfolding create_message insert_message created ◌>>=◌
  create_message-clash m key stored w keyed plain taken = rw (
    keyed,
    plain,
    p.message_table.create_lem (record m { unique_key = key; content = stored }) w.messages,
    taken,
  )
