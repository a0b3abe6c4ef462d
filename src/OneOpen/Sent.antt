-- ===== src/OneOpen/Sent.antt =====
-- A StartTransaction through the whole of ChargePointCallHandler.handle,
-- be/ocpp/services/charge_point_message_handler.py.
use levity.Types.PublishRun.{sent_off}
use levity.Prelude.{
  ℕ, String, ◌≡◌, refl, ap, sym, subst, ◌∙◌, true, false, some, List, [], ◌∷◌, ◌++◌, pos, any, In,
}
use levity.Logic.Keeps.{Keeps}
use levity.Logic.Requests.{deliver-Keeps, Publishes}
use levity.Middleware.Base.{blank_response}
use levity.Middleware.Chain.{handle_class}
use levity.Middleware.Chain.Build.{chain, get_middleware-eq-chain}
use levity.Middleware.Core.{accepted_tag}
use levity.Models.Exchange.{
  OcppRequest, OcppResponse, MiddlewareClass, orphaned_transaction_middleware,
  start_transaction_middleware,
}
use levity.Models.Rows.{ChargePoint, Transaction, Message, clash, is_open_for}
use levity.Models.World.{World, done, world_of, ◌>>=◌}
use levity.OneOpen.Answered.{start_transaction-answered}
use levity.OneOpen.Events.{basic_publish-transactions}
use levity.OneOpen.Opening.{IsStart, IsAnswer, Readable, started_content}
use levity.OneOpen.Rows.{OneOpen, open_count}
use levity.OneOpen.Starting.{transactions-Leaves, transactions-Rewrites}
use levity.Platform.{Platform, missing}
use levity.Serialization.{json_encode}
use levity.Services.CallHandler.{
  handler_of, default_middleware, middleware_classes, deliver, handle_call,
}
use levity.Services.CallHandler.Order.{deliver-Sends, Sends, posts, or_null, answer_of, Stored}
use levity.Services.CallHandler.Silence.{chain_silent, classes_of_named}
use levity.Types.Action.{start_transaction, actor_type_value}
use levity.Types.Error.{ok}
use levity.Types.MessageType.{call, message_type_value, same_message_type}
use levity.Types.Reply.{authorization_status_value}
use levity.Value.{Value, num, str, arr, obj, nil, cons, Fields, end, field}
use levity.Wire.{to_ocpp, ocpp_message}

module _ ⦃p : Platform⦄ where
  abbrev classes : List MiddlewareClass
  classes = orphaned_transaction_middleware ∷ start_transaction_middleware ∷ []

  -- The frame of the answer, as plain JSON.
  abbrev pub started_frame : Value → Transaction → Value
  started_frame unique_id t = arr (
      cons (num (pos 3) 0) (
        cons (json_encode unique_id) (
          cons
            (obj (
              field "transactionId" (num (pos t.id) 0)
                (field "idTagInfo" (obj (field "status" (str "Accepted") end)) end)))
            nil)))

  -- The envelope around it.
  abbrev pub started_envelope : String → Value → Transaction → Value
  started_envelope id unique_id t = obj (
      field "id" (str id)
        (field "actor" (str "cs") (field "message" (started_frame unique_id t) end)))

  started_envelope_lem :
      (m n : Message) (t : Transaction)
      → IsAnswer m n
      → n.content ≡ started_content t
      → json_encode (or_null (to_ocpp (record n { content = json_encode n.content })))
        ≡ started_envelope m.charge_point m.unique_id t
  unfolding json_encode to_ocpp ocpp_message same_message_type message_type_value actor_type_value
      accepted_tag authorization_status_value
  started_envelope_lem m n t a content = rw (content, a.0, a.1, a.2, a.3) refl

  handle_call_done :
      (cp : ChargePoint) (m : Message) (cs : List MiddlewareClass) (res : OcppResponse)
      (w v : World)
      → middleware_classes m ≡ ok cs
      → chain cs (record { message = m; charge_point = cp; extra = end }) w ≡ done res v
      → handle_call cp m w ≡ deliver cp m res v
  unfolding handle_call handler_of ◌>>=◌
  handle_call_done cp m cs res w v served returns =
      rw (served, get_middleware-eq-chain cs, returns) refl

  deliver-transactions :
      (Q : List Transaction → Type 0) (cp : ChargePoint) (m : Message) (res : OcppResponse)
      → Keeps (λ w. Q w.transactions) (deliver cp m res)
  deliver-transactions Q cp m res =
      let instance leaves = transactions-Leaves Q in
      let instance rewriting = transactions-Rewrites Q in
      let instance publishing : Publishes (λ w. Q w.transactions) = record {
        publishes = basic_publish-transactions Q;
      } in
      deliver-Keeps cp m res

  delivered :
      (cp : ChargePoint) (m : Message) (res : OcppResponse) (v : World) (t : Transaction)
      → ((n : ℕ) → p.publish_run n ≡ sent_off)
      → ((fs : Fields) → (s : Value) × (p.json_field (obj fs) ≡ ok s))
      → res.message.content ≡ started_content t
      → res.side_effects ≡ []
      → IsAnswer m res.message
      → Sends
          (deliver cp m res)
          v
          ((cp.ws_queue, started_envelope m.charge_point m.unique_id t) ∷ [])
  unfolding json_encode
  delivered cp m res v t up objects content alone is_answer =
      let (s, fits) = objects _ in
      let storable : (s : Value) × (p.json_field (json_encode res.message.content) ≡ ok s) =
        (s, ap (λ c. p.json_field (json_encode c)) content ∙ fits) in
      let sends = deliver-Sends cp m res v up (storable, subst Stored (sym alone) tt) in
      let envelope = started_envelope_lem m res.message t is_answer content in
      let posted : posts cp (answer_of res ∷ res.side_effects)
          ≡ (cp.ws_queue, started_envelope m.charge_point m.unique_id t) ∷ [] =
        rw (alone, envelope) refl in
      subst (Sends (deliver cp m res) v) posted sends

  -- With no OCPP_MIDDLEWARE setting, while the broker takes what it is given and objects can be
  -- stored, from a state in which each charge point has at most one open transaction and every
  -- stored reading, and zero, fits a meter stop: the handling of a call StartTransaction whose payload
  -- fits its columns, and whose id can be stored and is not that of a message of the central system,
  -- returns, and has sent one envelope, to the queue of the charge point: the result with the id of
  -- the call, whose transactionId is the key of the one transaction of the charge point that is open,
  -- and whose idTagInfo is Accepted.
  pub handle_call-answers :
      (cp : ChargePoint) (m : Message) (w : World) (key : String)
      → p.ocpp_middleware ≡ missing
      → ((n : ℕ) → p.publish_run n ≡ sent_off)
      → ((fs : Fields) → (s : Value) × (p.json_field (obj fs) ≡ ok s))
      → OneOpen w
      → Readable w.meter_values
      → IsStart m.content
      → m.action ≡ some start_transaction
      → m.message_type ≡ call
      → p.char_field 128 m.unique_id ≡ ok key
      → any (clash (record (blank_response m) { unique_key = key })) w.messages ≡ false
      → (w' : World) × (t : Transaction) × (handle_call cp m w ≡ done tt w')
        × (w'.sent ≡ w.sent ++ (cp.ws_queue, started_envelope m.charge_point m.unique_id t) ∷ [])
        × In t w'.transactions
        × (is_open_for m.charge_point t ≡ true)
        × (open_count m.charge_point w'.transactions ≡ 1)
  unfolding chain handle_class clash default_middleware
  handle_call-answers cp m w key unset up objects one readable start named called keyed fresh =
      let req : OcppRequest = record { message = m; charge_point = cp; extra = end } in
      let (stored, plain) = objects end in
      let (res, v, t, returned, kept, is_open, linked, content, alone, is_answer, self) =
        start_transaction-answered req w key stored one readable start named keyed plain fresh in
      let served : middleware_classes m ≡ ok classes =
        classes_of_named m start_transaction unset named
        ∙ ap (λ ty. ok (default_middleware start_transaction ty)) called in
      let silent =
        chain_silent m classes (chain classes) req w unset served
          (get_middleware-eq-chain classes) in
      let before : v.sent ≡ w.sent = sym (ap (λ o. (world_of o).sent) returned) ∙ silent in
      let (u, w', ran, sent) = delivered cp m res v t up objects content alone is_answer in
      let kept_rows =
        (deliver-transactions (λ rows. In t rows × (open_count m.charge_point rows ≡ 1)) cp m
            res).at
          v (kept, self) in
      let after : In t w'.transactions × (open_count m.charge_point w'.transactions ≡ 1) =
        rw ran at kept_rows in
      (
        w',
        t,
        handle_call_done cp m classes res w v served returned ∙ ran,
        sent
            ∙ ap (λ s. s ++ (cp.ws_queue, started_envelope m.charge_point m.unique_id t) ∷ [])
                before,
        after.0,
        is_open,
        after.1,
      )
