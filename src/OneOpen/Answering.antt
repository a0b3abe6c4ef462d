-- ===== src/OneOpen/Answering.antt =====
-- The answer to a well-formed StartTransaction: the second half of
-- be/ocpp/services/ocpp/core/start_transaction.py, and ResponseMiddleware.
use levity.Prelude.{ℕ, String, ◌≡◌, refl, ap, sym, ◌∙◌, true, some, [], pos, any}
use levity.Dict.{update}
use levity.Logic.Total.{Total, Total-bind, Total-known, Total-lift, Total-weaken}
use levity.Middleware.Base.{assert_action, is_action, blank_response, handle_response, update_data}
use levity.Middleware.Core.{accepted_tag}
use levity.Middleware.Metering.{open_transaction, finish_start, handle_start_transaction}
use levity.Middleware.Orphans.{stop_all, handle_orphaned_transaction}
use levity.Models.Exchange.{OcppRequest, OcppResponse}
use levity.Models.Rows.{ChargePoint, Transaction, Message, clash}
use levity.Models.World.{World, Exec, pure, created, assert, ◌>>=◌, ◌>>◌}
use levity.Objects.Effects.{utc_now}
use levity.Objects.Messages.{create_message, insert_message, save_fields}
use levity.Objects.Transactions.{save_charge_point}
use levity.Platform.{Platform}
use levity.Receivers.{post_save_message}
use levity.Types.Action.{action_value, start_transaction}
use levity.Types.Error.{ok}
use levity.Value.{Value, num, obj, end, field, merge, insert}
use levity.OneOpen.Opening.{
  IsStart, IsAnswer, Open, Holds, open_transaction-Total, stop_all-Total, answer_row,
  started_content,
}
use levity.OneOpen.Saving.{Stays, save_fields-Total, post_save_answer-Total}

module _ ⦃p : Platform⦄ where
  module _ (answer : Message) where
    module _ (cp : String) (t : Transaction) where
      abbrev Held : World → Type 0
      Held = Holds answer cp t

      -- What is left to know once the answer is stored.
      abbrev Kept : World → Type 0
      Kept = Stays cp t

      -- The answer to a call, with nothing in it yet.
      abbrev Blank : Message → Message → World → Type 0
      Blank call m w = (m.content ≡ obj end) × IsAnswer call m × Kept w

      create_answer-Total :
          (call : Message) (key : String) (stored : Value)
          → p.char_field 128 call.unique_id ≡ ok key
          → p.json_field (obj end) ≡ ok stored
          → answer ≡ answer_row call key stored
          → Total Held (Blank call) (create_message (blank_response call))
      unfolding create_message insert_message created pure
      create_answer-Total call key stored keyed plain is_answer =
          Total-lift (Blank call) _ key _ keyed (
            Total-lift (Blank call) _ stored _ plain (
              Total-bind (λ row w. IsAnswer call row × Kept w) (Blank call)
                (insert_message (answer_row call key stored)) _
                (record {
                  at = λ w h.
                      let fresh = ap (λ a. any (clash a) w.messages) (sym is_answer) ∙ h.2.1 in
                      rw (p.message_table.create_lem (answer_row call key stored) w.messages, fresh)
                        ((refl, refl, refl, refl), (h.0, h.1));
                })
                (λ row. record {
                  at = λ w h.
                      (Total-bind (λ u. Kept) (Blank call)
                          (post_save_message (record row { content = obj end }) true) _
                          (post_save_answer-Total answer cp t (record row { content = obj end })
                            h.0.3)
                          (λ u. record { at = λ v k. (refl, h.0, k) })).at
                        w h.1;
                })))

      handle_response-Total :
          (req : OcppRequest) (key : String) (stored : Value)
          → p.char_field 128 req.message.unique_id ≡ ok key
          → p.json_field (obj end) ≡ ok stored
          → answer ≡ answer_row req.message key stored
          → Total Held
              (λ res w. (res.side_effects ≡ []) × Blank req.message res.message w)
              (handle_response req)
      unfolding handle_response pure
      handle_response-Total req key stored keyed plain is_answer =
          Total-bind (Blank req.message)
            (λ res w. (res.side_effects ≡ []) × Blank req.message res.message w)
            (create_message (blank_response req.message)) _
            (create_answer-Total req.message key stored keyed plain is_answer)
            (λ m. record { at = λ w h. (refl, h) })

      -- The reply that the charge point gets.
      abbrev pub Answered : Message → OcppResponse → World → Type 0
      Answered call res w =
          (res.transaction ≡ some t.id)
          × (res.message.content ≡ started_content t)
          × (res.side_effects ≡ [])
          × IsAnswer call res.message
          × Kept w

      finish_answer-Total :
          (call : Message) (res : OcppResponse)
          → Total
              (λ w. (res.side_effects ≡ []) × Blank call res.message w)
              (Answered call)
              (do
                res' ← update_data res (field "transactionId" (num (pos t.id) 0) accepted_tag)
                pure (record res' { transaction = some t.id }))
      unfolding update_data update pure ◌>>=◌ merge insert accepted_tag
      finish_answer-Total call res = record { at = λ w h. rw h.1.0 (refl, refl, h.0, h.1.1, h.1.2) }

      finish_start-Total :
          (req : OcppRequest) (key : String) (stored : Value)
          → p.char_field 128 req.message.unique_id ≡ ok key
          → p.json_field (obj end) ≡ ok stored
          → answer ≡ answer_row req.message key stored
          → Total Held (Answered req.message) (finish_start handle_response req t)
      unfolding finish_start utc_now save_charge_point clash
      finish_start-Total req key stored keyed plain is_answer =
          let linked : Message → Message = λ row. record row { transaction = some t.id } in
          let started : ℕ → ChargePoint → ChargePoint =
            λ now row. record row { last_tx_start_at = some now } in
          let answer_to : Message → Exec OcppResponse = λ n. (do
            res ← handle_response (record req { message = n })
            res' ← update_data res (field "transactionId" (num (pos t.id) 0) accepted_tag)
            pure (record res' { transaction = some t.id })) in
          let go : Message → Exec OcppResponse = λ n. (do
            now ← utc_now
            save_charge_point req.charge_point.id (started now)
            answer_to n) in
          Total-bind (λ n w. (n ≡ linked req.message) × Held w) (Answered req.message)
            (save_fields req.message linked) go
            (save_fields-Total answer cp t req.message linked (λ n. refl))
            (λ n. Total-known n (linked req.message) Held (Answered req.message) go (
              Total-bind (λ now. Held) (Answered req.message) utc_now _ (record { at = λ w h. h })
                (λ now.
                  Total-bind (λ u. Held) (Answered req.message)
                    (save_charge_point req.charge_point.id (started now)) _
                    (record { at = λ w h. h })
                    (λ u.
                      Total-bind
                        (λ res w.
                          (res.side_effects ≡ []) × Blank (linked req.message) res.message w)
                        (Answered req.message)
                        (handle_response (record req { message = linked req.message })) _
                        (handle_response-Total (record req { message = linked req.message }) key
                          stored keyed plain is_answer)
                        (λ res. finish_answer-Total req.message res)))))

    -- The new row is open, and the reply names it.
    abbrev pub Opened : Message → OcppResponse → World → Type 0
    Opened call res w = (t : Transaction) × Answered call.charge_point t call res w

    module _ (req : OcppRequest) (key : String) (stored : Value)
        (start : IsStart req.message.content)
        (keyed : p.char_field 128 req.message.unique_id ≡ ok key)
        (plain : p.json_field (obj end) ≡ ok stored)
        (is_answer : answer ≡ answer_row req.message key stored) where
      handle_start-Total :
          Total (Open answer) (Opened req.message) (handle_start_transaction handle_response req)
      unfolding handle_start_transaction
      handle_start-Total =
          let cp = req.message.charge_point in
          Total-bind (λ t w. Holds answer cp t w) (Opened req.message) (open_transaction req) _
            (open_transaction-Total answer req start)
            (λ t.
              Total-weaken (Answered cp t req.message) (Opened req.message)
                (finish_start handle_response req t)
                (finish_start-Total cp t req key stored keyed plain is_answer) (λ res w h. (t, h)))

      pub handle_orphaned-Total :
          req.message.action ≡ some start_transaction
          → Total
              (Open answer)
              (Opened req.message)
              (handle_orphaned_transaction (handle_start_transaction handle_response) req)
      unfolding handle_orphaned_transaction assert_action is_action assert ◌>>=◌ action_value
      handle_orphaned-Total named =
          let cp = req.message.charge_point in
          Total-bind (λ u. Open answer) (Opened req.message)
            (assert_action start_transaction req.message) _ (record { at = λ w h. rw named h })
            (λ u.
              Total-bind (λ v. Open answer) (Opened req.message) (stop_all cp) _
                (stop_all-Total answer cp) (λ v. handle_start-Total))
