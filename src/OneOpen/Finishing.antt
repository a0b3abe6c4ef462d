-- ===== src/OneOpen/Finishing.antt =====
-- The chain of StopTransaction: be/ocpp/services/ocpp/core/stop_transaction.py.
use levity.Prelude.{ℕ, ℤ, ◌≡◌, refl, ap, subst, ◌∙◌, true, some, List, map}
use levity.Dict.{subscript, elements, get}
use levity.Logic.Handlers.{handler_rules, handle_response-Keeps}
use levity.Logic.Leaves.{leaf_rules}
use levity.Logic.Triple.{Triple, Triple-bind, Triple-step}
use levity.Middleware.Base.{handle_response, update_data}
use levity.Middleware.Metering.{handle_stop_transaction, record_meter_values}
use levity.Models.Exchange.{OcppRequest, OcppResponse}
use levity.Models.Rows.{Transaction, Message}
use levity.Models.World.{World, done, pure, lift, ◌>>=◌, ◌>>◌}
use levity.Objects.Messages.{transaction_from_data}
use levity.Objects.Effects.{utc_now}
use levity.Objects.Transactions.{stop, stopped, save_transaction, save_charge_point}
use levity.OneOpen.Starting.{transactions-Leaves}
use levity.OneOpen.Rows.{stop_at}
use levity.Platform.{Platform}
use levity.Types.Error.{Result, ok, err}
use levity.Types.Reason.{StopReason, parse_stop_reason}
use levity.Middleware.Core.{accepted_tag}
use levity.Value.{Value, null, arr, nil, or_else}
use levity.OneOpen.Naming.{IsNamed, Anything, Same, lift-Triple, transaction_from_data-Triple}

module _ ⦃p : Platform⦄ where
  -- What the payload says of its end.
  abbrev pub SaysEnd : Value → StopReason → ℤ → Type 0
  SaysEnd content reason meter =
      (v : Value) × (m : Value) × (subscript content "reason" ≡ ok v)
      × (parse_stop_reason v ≡ ok reason)
      × (subscript content "meterStop" ≡ ok m)
      × (p.integer_field m ≡ ok meter)

  module _ (rows : List Transaction) where
    -- After `stop`, and to the end: the one row is written, and the answer names it.
    abbrev pub Ended : Transaction → StopReason → ℤ → World → Type 0
    Ended t reason meter w =
        (now : ℕ) × (w.transactions ≡ p.transaction_table.save t.id (stopped reason meter now) rows)

    abbrev Metered : Transaction → StopReason → Value → World → Type 0
    Metered t reason v w = (meter : ℤ) × (p.integer_field v ≡ ok meter) × Ended t reason meter w

    stopping-Triple :
        (t : Transaction) (reason : StopReason) (v : Value) (r : Result ℤ)
        → p.integer_field v ≡ r
        → Triple (Same rows) (λ u. Metered t reason v) Anything (stop t reason v)
    unfolding stop utc_now save_transaction save_charge_point ◌>>=◌
    stopping-Triple t reason v (ok meter) fits = record {
      at = λ w h.
          rw fits (meter, fits, (p.utc_now w.clock_reads, ap (p.transaction_table.save t.id _) h));
    }
    stopping-Triple t reason v (err e) fits = record { at = λ w h. rw fits tt }

    abbrev Finished : Value → OcppResponse → World → Type 0
    Finished content res w =
        (t : Transaction) × (reason : StopReason) × (meter : ℤ) × IsNamed content rows t
        × SaysEnd content reason meter
        × Ended t reason meter w
        × (res.transaction ≡ some t.id)

    -- The readings and the answer come after the stop.
    answering-Triple :
        (req : OcppRequest) (content data_of : Value) (t : Transaction) (reason : StopReason)
        (meter : ℤ)
        → IsNamed content rows t
        → SaysEnd content reason meter
        → Triple (Ended t reason meter) (Finished content) Anything (do
          given ← lift (get data_of "transactionData" null)
          transaction_data ← lift (elements (or_else given (arr nil)))
          record_meter_values t.id true transaction_data
          res ← handle_response req
          res' ← update_data res accepted_tag
          pure (record res' { transaction = some t.id }))
    unfolding pure
    answering-Triple req content data_of t reason meter is_named says_end =
        let instance leaves = transactions-Leaves (λ rs.
          (now : ℕ) × (rs ≡ p.transaction_table.save t.id (stopped reason meter now) rows)) in
        Triple-step _ (lift _) _ (search leaf_rules) (λ w h. tt)
          (λ given.
            Triple-step _ (lift _) _ (search leaf_rules) (λ w h. tt)
              (λ data_.
                Triple-step _ (record_meter_values _ _ _) _ (search handler_rules) (λ w h. tt)
                  (λ u.
                    Triple-step _ (handle_response req) _ (handle_response-Keeps req) (λ w h. tt)
                      (λ res.
                        Triple-step _ (update_data res _) _ (search handler_rules) (λ w h. tt)
                          (λ res'. record {
                            at = λ w h. (t, reason, meter, is_named, says_end, h, refl);
                          })))))

    ending-Triple :
        (req : OcppRequest) (m : Message) (content : Value) (t : Transaction)
        → m.content ≡ content
        → IsNamed content rows t
        → Triple (Same rows) (Finished content) Anything (do
          given_reason ← lift (subscript m.content "reason")
          reason ← lift (parse_stop_reason given_reason)
          meter_stop ← lift (subscript m.content "meterStop")
          stop t reason meter_stop
          given ← lift (get m.content "transactionData" null)
          transaction_data ← lift (elements (or_else given (arr nil)))
          record_meter_values t.id true transaction_data
          res ← handle_response (record req { message = m })
          res' ← update_data res accepted_tag
          pure (record res' { transaction = some t.id }))
    ending-Triple req m content t same is_named =
        lift-Triple (Same rows) _ (subscript m.content "reason") _ (λ given has_reason.
          lift-Triple (Same rows) _ (parse_stop_reason given) _ (λ reason parsed.
            lift-Triple (Same rows) _ (subscript m.content "meterStop") _ (λ v has_meter.
              Triple-bind (λ u. Metered t reason v) _ (stop t reason v) _
                (stopping-Triple t reason v (p.integer_field v) refl)
                (λ u. record {
                  at = λ w h.
                      (answering-Triple (record req { message = m }) content m.content t reason h.0
                          is_named
                          (
                            given,
                            v,
                            subst (λ c. subscript c "reason" ≡ ok given) same has_reason,
                            parsed,
                            subst (λ c. subscript c "meterStop" ≡ ok v) same has_meter,
                            h.1,
                          )).at
                        w h.2;
                }))))

    stopped-Triple :
        (req : OcppRequest)
        → Triple
            (Same rows)
            (Finished req.message.content)
            Anything
            (handle_stop_transaction handle_response req)
    unfolding handle_stop_transaction
    stopped-Triple req =
        Triple-bind
          (λ mt w.
            (mt.0.content ≡ req.message.content)
            × IsNamed req.message.content rows mt.1
            × Same rows w)
          _ (transaction_from_data req.message) _ (transaction_from_data-Triple rows req.message)
          (λ mt. record {
            at = λ w h. (ending-Triple req mt.0 req.message.content mt.1 h.0 h.1).at w h.2;
          })

  -- When the chain of StopTransaction returns: its payload names a transaction of the table, a reason
  -- and a meter stop, that one row has them and a time of stop, every other transaction and column is
  -- as before, and the reply belongs to that transaction.
  pub stop_transaction-Finished :
      (req : OcppRequest) (w w' : World) (res : OcppResponse)
      → handle_stop_transaction handle_response req w ≡ done res w'
      → (t : Transaction) × (reason : StopReason) × (meter : ℤ) × (now : ℕ) × IsNamed
          req.message.content w.transactions t
        × SaysEnd req.message.content reason meter
        × (w'.transactions ≡ map (stop_at t.id reason meter now) w.transactions)
        × (res.transaction ≡ some t.id)
  stop_transaction-Finished req w w' res e =
      let (t, reason, meter, is_named, says_end, (now, table), named) =
        rw e at ((stopped-Triple w.transactions req).at w refl) in
      (
        t,
        reason,
        meter,
        now,
        is_named,
        says_end,
        table ∙ p.transaction_table.save_lem t.id (stopped reason meter now) w.transactions,
        named,
      )
