-- ===== src/OneOpen/Arrival.antt =====
-- A StartTransaction from the queue to the answer: handle_websocket_event of
-- be/ocpp/services/websocket_event_handler.py, and Message.from_occp of be/ocpp/models/message.py.
use levity.Types.PublishRun.{sent_off}
use levity.Prelude.{
  ℕ, String, ◌≡◌, refl, ap, sym, subst, ◌∙◌, Bool, true, false, none, some, List, [], ◌∷◌, ◌++◌,
  pos, any, In, arith,
}
use levity.Dict.{subscript, first}
use levity.Models.Rows.{ChargePoint, Transaction, Message, clash, same_actor, is_open_for}
use levity.Models.World.{World, done, lift, assert, ◌>>=◌}
use levity.Middleware.Base.{blank_response}
use levity.OneOpen.Opening.{IsStart, Readable}
use levity.OneOpen.Rows.{OneOpen, open_count}
use levity.OneOpen.Sent.{handle_call-answers, started_envelope}
use levity.Objects.ChargePoints.{update_or_create_charge_point, upsert_charge_point}
use levity.Services.CallHandler.{handle_call}
use levity.Services.Events.{handle_receive, handle_by_event_type, handle_websocket_event}
use levity.Services.Events.Rows.{upserted, upserted_lem, upserted_queue}
use levity.Services.ResultHandler.{handle_by_type, handle_message_from_charge_point}
use levity.Objects.Messages.{create_message, from_occp, unpack, unpack_call, payload}
use levity.Platform.{Platform, missing}
use levity.Types.Error.{ok}
use levity.Types.Action.{
  charge_point, start_transaction, parse_action, receive, parse_websocket_event_type,
}
use levity.Types.MessageType.{call, parse_message_type, same_message_type}
use levity.Value.{Value, null, num, str, arr, obj, nil, cons, Fields, truthy, is_number}
use levity.Objects.Messages.Storing.{create_message-Stores}

-- What from_occp makes of a call, before it has a key.
abbrev pub start_call : String → Value → Value → Message
start_call id unique_id content = record {
  id = 0;
  charge_point = id;
  transaction = none;
  message_type = call;
  unique_id = unique_id;
  unique_key = "";
  actor = charge_point;
  action = some start_transaction;
  error_code = none;
  error_description = null;
  content = content;
  reply = none;
}

-- OCPP's frame of a StartTransaction.
abbrev pub start_frame : Value → Value → Value
start_frame unique_id content =
    arr (cons (num (pos 2) 0) (cons unique_id (cons (str "StartTransaction") (cons content nil))))

module _ ⦃p : Platform⦄ where
  from_occp_start :
      (cp : ChargePoint) (event unique_id content : Value)
      → subscript event "message" ≡ ok (start_frame unique_id content)
      → from_occp cp event ≡ create_message (start_call cp.id unique_id content)
  unfolding from_occp first parse_message_type is_number unpack unpack_call same_message_type
      payload truthy parse_action lift ◌>>=◌
  from_occp_start cp event unique_id content framed = rw framed refl

  any-append :
      (q : Message → Bool) (ms : List Message) (m : Message)
      → any q ms ≡ false
      → q m ≡ false
      → any q (ms ++ m ∷ []) ≡ false
  any-append q [] m h e = rw e refl
  any-append q (n ∷ ms) m h e = ground (arith, any-append q ms m)

  -- The call of a charge point is answered: one envelope is sent, and it names its open transaction.
  abbrev pub IsAnswered : String → String → Value → World → World → Type 0
  IsAnswered id queue unique_id w w' =
      (t : Transaction) × (w'.sent ≡ w.sent ++ (queue, started_envelope id unique_id t) ∷ [])
      × In t w'.transactions
      × (is_open_for id t ≡ true)
      × (open_count id w'.transactions ≡ 1)

  -- No stored message has the id, of either side.
  abbrev pub IsNew : Value → Value → String → Value → String → List Message → Type 0
  IsNew unique_id content key stored id ms =
      (any (clash (record (start_call id unique_id content) { unique_key = key; content = stored }))
          ms
        ≡ false)
      × (any
            (clash (record (blank_response (start_call id unique_id content)) { unique_key = key }))
            ms
          ≡ false)

  module _ (unset : p.ocpp_middleware ≡ missing) (up : (n : ℕ) → p.publish_run n ≡ sent_off)
      (objects : (fs : Fields) → (s : Value) × (p.json_field (obj fs) ≡ ok s))
      (unique_id content : Value) (key : String) (stored : Value)
      (keyed : p.char_field 128 unique_id ≡ ok key) (storable : p.json_field content ≡ ok stored)
      (start : IsStart content) where
    handle_receive-answers :
        (cp : ChargePoint) (event : Value) (v : World)
        → subscript event "message" ≡ ok (start_frame unique_id content)
        → OneOpen v
        → Readable v.meter_values
        → IsNew unique_id content key stored cp.id v.messages
        → (w : World) × (handle_receive cp event v ≡ done tt w)
          × IsAnswered cp.id cp.ws_queue unique_id v w
    unfolding handle_receive handle_message_from_charge_point handle_by_type assert same_actor clash
        ◌>>=◌
    handle_receive-answers cp event v framed one readable (new, new_answer) =
        let call_of = start_call cp.id unique_id content in
        let m = record call_of { id = p.message_table.next v.messages; unique_key = key } in
        let (w1, made, (messages, transactions, readings, sent)) =
          create_message-Stores call_of key stored v keyed storable new in
        let received : handle_receive cp event v ≡ handle_call cp m w1 =
          rw (from_occp_start cp event unique_id content framed, made) refl in
        let one1 : OneOpen w1 = λ c. rw transactions (one c) in
        let fresh = any-append _ v.messages _ new_answer refl in
        let (w, t, ran, answered, kept, is_open, self) =
          handle_call-answers cp m w1 key unset up objects one1 (rw readings readable) start refl
            refl keyed (rw messages fresh) in
        (
          w,
          received ∙ ran,
          (
            t,
            answered ∙ ap (λ s. s ++ (cp.ws_queue, started_envelope cp.id unique_id t) ∷ []) sent,
            kept,
            is_open,
            self,
          ),
        )

    -- With no OCPP_MIDDLEWARE setting, while the broker takes what it is given and objects can be
    -- stored, from a state in which each charge point has at most one open transaction and every
    -- stored reading, and zero, fits a meter stop: a receive event whose id and queue fit their
    -- columns, with the frame of a StartTransaction whose payload fits its columns and whose id can be
    -- stored and is new, is handled: the call returns, and one envelope has gone to the queue of the
    -- event: the result with the id of the frame, which names the one transaction of the charge point
    -- that is open.
    pub handle_websocket_event-answers :
        (event given_id given_queue type : Value) (id queue : String) (w : World)
        → subscript event "id" ≡ ok given_id
        → subscript event "queue" ≡ ok given_queue
        → subscript event "type" ≡ ok type
        → parse_websocket_event_type type ≡ ok receive
        → subscript event "message" ≡ ok (start_frame unique_id content)
        → p.char_field 128 given_id ≡ ok id
        → p.char_field 256 given_queue ≡ ok queue
        → OneOpen w
        → Readable w.meter_values
        → IsNew unique_id content key stored id w.messages
        → (w' : World) × (handle_websocket_event event w ≡ done tt w')
          × IsAnswered id queue unique_id w w'
    unfolding handle_websocket_event update_or_create_charge_point upsert_charge_point
        handle_by_event_type ◌>>=◌
    handle_websocket_event-answers event i q ty id queue w has_id has_queue has_type known framed
          fits fits' one readable new =
        let cp = (upserted id queue w.charge_points).0 in
        let (named, has, rest) = upserted_lem id queue w.charge_points in
        let queued = upserted_queue id queue w.charge_points in
        let v : World = record w { charge_points = (upserted id queue w.charge_points).1 } in
        let (w', ran, answered) =
          handle_receive-answers cp event v framed one readable
            (subst (λ c. IsNew unique_id content key stored c w.messages) (sym named) new) in
        let answered' : IsAnswered id queue unique_id w w' =
          subst (λ c. IsAnswered c queue unique_id w w') named
            (subst (λ c. IsAnswered cp.id c unique_id w w') queued answered) in
        (w', rw (has_id, has_queue, fits, fits', has_type, known) ran, answered')
