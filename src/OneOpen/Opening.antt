-- ===== src/OneOpen/Opening.antt =====
-- What a well-formed StartTransaction does before it is answered:
-- be/ocpp/services/ocpp/automation/orphaned_transaction.py, and the first half of
-- be/ocpp/services/ocpp/core/start_transaction.py.
use levity.Prelude.{
  ◌++◌, eq_refl, here, there, ℕ, String, ◌≡◌, refl, true, false, none, List, [], ◌∷◌, ℤ, pos, any,
  In, Option-cases, inl, inr,
}
use levity.Dict.{subscript}
use levity.Logic.Total.{Total, Total-bind, Total-lift}
use levity.Middleware.Base.{blank_response}
use levity.Middleware.Core.{accepted_tag}
use levity.Middleware.Metering.{open_transaction}
use levity.Middleware.Orphans.{
  last_reading, value_or_zero, is_energy_of, stop_orphan, stop_orphans, orphaned_transactions,
  stop_all,
}
use levity.Models.Exchange.{OcppRequest}
use levity.Models.Rows.{Transaction, Message, MeterValue, clash, is_open_for}
use levity.Models.World.{World, pure, reads, created, ◌>>=◌}
use levity.Objects.Effects.{utc_now}
use levity.Objects.Transactions.{stop, save_charge_point, save_transaction, create_transaction}
use levity.Platform.{Platform}
use levity.Types.Error.{ok}
use levity.Types.Reason.{other}
use levity.Types.Action.{central_system}
use levity.Types.MessageType.{call_result}
use levity.Value.{Value, num, obj, field}

-- The payload of the reply to the call that opened a transaction.
abbrev pub started_content : Transaction → Value
started_content t = obj (field "transactionId" (num (pos t.id) 0) accepted_tag)

-- The answer to a call, beside its payload.
abbrev pub IsAnswer : Message → Message → Type 0
IsAnswer call m =
    (m.charge_point ≡ call.charge_point)
    × (m.message_type ≡ call_result)
    × (m.unique_id ≡ call.unique_id)
    × (m.actor ≡ central_system)

module _ ⦃p : Platform⦄ where
  -- A payload that the columns of a transaction can store.
  pub record IsStart (content : Value) : Type 0 where
    pub connector : Value
    pub connector_id : String
    pub tag : Value
    pub id_tag : String
    pub meter : Value
    pub meter_start : ℤ
    pub has_connector : subscript content "connectorId" ≡ ok connector
    pub has_tag : subscript content "idTag" ≡ ok tag
    pub has_meter : subscript content "meterStart" ≡ ok meter
    pub connector_fits : p.char_field 64 connector ≡ ok connector_id
    pub tag_fits : p.char_field 256 tag ≡ ok id_tag
    pub meter_fits : p.integer_field meter ≡ ok meter_start

  -- Every stored reading, and the zero that stands for none, fits the column of a meter stop.
  abbrev pub Readable : List MeterValue → Type 0
  Readable rows =
      ((r : MeterValue) → In r rows → (z : ℤ) × (p.integer_field r.value ≡ ok z))
      × ((z : ℤ) × (p.integer_field (num (pos 0) 0) ≡ ok z))

  -- The answer's row, and that it clashes with none.
  abbrev pub answer_row : Message → String → Value → Message
  answer_row m key stored = record (blank_response m) { unique_key = key; content = stored }

  pub last_reading_fits :
      (t : ℕ) (w : World)
      → Readable w.meter_values
      → (z : ℤ) × (p.integer_field (last_reading t w) ≡ ok z)
  unfolding last_reading value_or_zero
  last_reading_fits t w h =
      elim (Option-cases
        (p.meter_value_table.last_by (λ r. r.timestamp) (is_energy_of t) w.meter_values)) [
          | inl missing ↦ rw missing h.1
          | inr (r, found) ↦
              let (stored, rest, latest) =
                p.meter_value_table.last_by_some (λ s. s.timestamp) (is_energy_of t) w.meter_values
                  r found in
              rw found (h.0 r stored)
        ]

  module _ (answer : Message) where
    -- Before the new row.
    abbrev pub Open : World → Type 0
    Open w = Readable w.meter_values × (any (clash answer) w.messages ≡ false)

    stop-Total :
        (t : Transaction) (w : World) (v : Value) (z : ℤ)
        → p.integer_field v ≡ ok z
        → Total Open (λ u. Open) (stop t other v)
    unfolding stop utc_now save_transaction save_charge_point ◌>>=◌
    stop-Total t w v z fits = record { at = λ x h. rw fits h }

    stop_orphan-Total : (t : Transaction) → Total Open (λ u. Open) (stop_orphan t)
    unfolding stop_orphan reads
    stop_orphan-Total t = record {
      at = λ w h.
          let (z, fits) = last_reading_fits t.id w h.0 in
          (stop-Total t w (last_reading t.id w) z fits).at w h;
    }

    stop_orphans-Total : (ts : List Transaction) → Total Open (λ u. Open) (stop_orphans ts)
    unfolding stop_orphans pure
    stop_orphans-Total [] = record { at = λ w h. h }
    stop_orphans-Total (t ∷ ts) =
        Total-bind (λ u. Open) (λ u. Open) (stop_orphan t) _ (stop_orphan-Total t)
          (λ u. stop_orphans-Total ts)

    pub stop_all-Total : (cp : String) → Total Open (λ u. Open) (stop_all cp)
    unfolding stop_all orphaned_transactions
    stop_all-Total cp =
        Total-bind (λ ts. Open) (λ u. Open) (orphaned_transactions cp) _ (record { at = λ w h. h })
          (λ ts. stop_orphans-Total ts)

    any_never : (rows : List Transaction) → any (λ s. false) rows ≡ false
    any_never [] = refl
    any_never (r ∷ rows) = any_never rows

    In-last : (t : Transaction) (rows : List Transaction) → In t (rows ++ t ∷ [])
    In-last t [] = here refl
    In-last t (r ∷ rows) = there (In-last t rows)

    -- The new row is in the table, and it is open.
    abbrev pub Holds : String → Transaction → World → Type 0
    Holds cp t w = In t w.transactions × (is_open_for cp t ≡ true) × Open w

    create_transaction-Total :
        (t : Transaction)
        → t.stopped_at ≡ none
        → Total Open (λ row w. Holds t.charge_point row w) (create_transaction t)
    unfolding create_transaction created is_open_for
    create_transaction-Total t new = record {
      at = λ w h.
          rw (p.transaction_table.create_lem t w.transactions, any_never w.transactions)
            (In-last _ w.transactions, rw (eq_refl t.charge_point, new) refl, h);
    }

    pub open_transaction-Total :
        (req : OcppRequest)
        → IsStart req.message.content
        → Total Open (λ t w. Holds req.message.charge_point t w) (open_transaction req)
    unfolding open_transaction utc_now
    open_transaction-Total req s =
        let Q : Transaction → World → Type 0 = λ t w. Holds req.message.charge_point t w in
        Total-lift Q _ s.connector _ s.has_connector (
          Total-lift Q _ s.tag _ s.has_tag (
            Total-lift Q _ s.meter _ s.has_meter (
              Total-bind (λ now. Open) Q utc_now _ (record { at = λ w h. h })
                (λ now. Total-lift Q _ s.connector_id _ s.connector_fits (
                  Total-lift Q _ s.id_tag _ s.tag_fits (
                    Total-lift Q _ s.meter_start _ s.meter_fits
                      (create_transaction-Total _ refl)))))))
