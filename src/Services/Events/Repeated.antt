-- ===== src/Services/Events/Repeated.antt =====
-- A call that is delivered again, through handle_websocket_event of
-- be/ocpp/services/websocket_event_handler.py and Message.from_occp of be/ocpp/models/message.py.
use levity.Prelude.{String, List, ◌≡◌, refl, true, none, some, pos, any}
use levity.Dict.{subscript, first}
use levity.Models.Rows.{ChargePoint, Message, clash}
use levity.Models.World.{World, raised, lift, ◌>>=◌}
use levity.Objects.ChargePoints.{update_or_create_charge_point, upsert_charge_point}
use levity.Objects.Messages.{create_message, from_occp, unpack, unpack_call, payload}
use levity.Objects.Messages.Frames.{create_message-clash}
use levity.Platform.{Platform}
use levity.Services.Events.{handle_receive, handle_by_event_type, handle_websocket_event}
use levity.Services.Events.Rows.{upserted, upserted_lem, others}
use levity.Types.Action.{Action, charge_point, parse_action, receive, parse_websocket_event_type}
use levity.Types.Error.{ok, integrity_error}
use levity.Types.MessageType.{call, parse_message_type, same_message_type}
use levity.Value.{Value, null, num, arr, nil, cons, truthy, is_number}

module _ ⦃p : Platform⦄ where
  -- OCPP's frame of a call.
  abbrev pub call_frame_of : Value → Value → Value → Value
  call_frame_of unique_id named content =
      arr (cons (num (pos 2) 0) (cons unique_id (cons named (cons content nil))))

  -- What from_occp makes of it, before it has a key.
  abbrev pub call_of : String → Value → Action → Value → Message
  call_of id unique_id action content = record {
    id = 0;
    charge_point = id;
    transaction = none;
    message_type = call;
    unique_id = unique_id;
    unique_key = "";
    actor = charge_point;
    action = some action;
    error_code = none;
    error_description = null;
    content = content;
    reply = none;
  }

  pub from_occp_call :
      (cp : ChargePoint) (event unique_id named content : Value) (action : Action) (w : World)
      → subscript event "message" ≡ ok (call_frame_of unique_id named content)
      → truthy named ≡ true
      → parse_action named ≡ ok action
      → from_occp cp event w ≡ create_message (call_of cp.id unique_id action content) w
  unfolding from_occp first parse_message_type is_number unpack unpack_call same_message_type
      payload lift ◌>>=◌ create_message truthy
  from_occp_call cp event unique_id named content action w framed given known =
      rw (framed, given, known) refl

  -- A receive event whose id and queue fit their columns, with a call of a known action whose id and
  -- payload can be stored, and whose id a stored message of a charge point has, as when it is
  -- delivered again: IntegrityError is raised, and no more has changed than the rows of charge points,
  -- of which those of others are as they were; no message, transaction or reading is added or changed
  -- and nothing is sent.
  pub handle_websocket_event-repeated :
      (event given_id given_queue type unique_id named content : Value) (action : Action)
      (id queue key : String) (stored : Value) (w : World)
      → subscript event "id" ≡ ok given_id
      → subscript event "queue" ≡ ok given_queue
      → subscript event "type" ≡ ok type
      → parse_websocket_event_type type ≡ ok receive
      → subscript event "message" ≡ ok (call_frame_of unique_id named content)
      → truthy named ≡ true
      → parse_action named ≡ ok action
      → p.char_field 128 given_id ≡ ok id
      → p.char_field 256 given_queue ≡ ok queue
      → p.char_field 128 unique_id ≡ ok key
      → p.json_field content ≡ ok stored
      → any
          (clash
            (record (call_of id unique_id action content) { unique_key = key; content = stored }))
          w.messages
        ≡ true
      → (rows : List ChargePoint) × (handle_websocket_event event w
          ≡ raised integrity_error (record w { charge_points = rows }))
        × (others id rows ≡ others id w.charge_points)
  unfolding handle_websocket_event update_or_create_charge_point upsert_charge_point
      handle_by_event_type handle_receive clash ◌>>=◌
  handle_websocket_event-repeated event i q ty unique_id named content action id queue key stored w
        has_id has_queue has_type received framed given known fits fits' keyed storable taken =
      let v : World = record w { charge_points = (upserted id queue w.charge_points).1 } in
      let cp = (upserted id queue w.charge_points).0 in
      let (same, has, rest) = upserted_lem id queue w.charge_points in
      let refused =
        create_message-clash (call_of cp.id unique_id action content) key stored v keyed storable
          taken in
      let made = from_occp_call cp event unique_id named content action v framed given known in
      (
        (upserted id queue w.charge_points).1,
        rw (has_id, has_queue, fits, fits', has_type, received, made, refused) refl,
        rest,
      )
