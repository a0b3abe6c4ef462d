-- ===== src/Management/Reporting.antt =====
-- What the commands of be/ocpp/management/commands share: the choice of the transactions, the text of
-- a charge point, and the rows that they print.
use Prim.Native.String.{◌++◌ as str_append}
use levity.Prelude.{
  ℕ, String, Bool, false, Option, none, some, List, [], ◌∷◌, ◌++◌, ◌&&◌, leb, ltb, find, str_eq,
}
use levity.Models.Rows.{ChargePoint, Transaction, MeterValue}
use levity.Models.World.{Exec, World, done, lift, reads}
use levity.Platform.{Platform}
use levity.Types.Error.{Result, ok, err, does_not_exist}
use levity.Value.{Value}

-- What the commands use and do not implement: the order of `order_by`, pytz and the format of dates,
-- and the arithmetic of floats. `greater a b` is `a > b`, and `round_to` is `round`.
pub record Reporting : Type 0 where
  pub by_started_at : List Transaction → List Transaction
  pub by_timestamp : List MeterValue → List MeterValue
  pub localize : ℕ → ℕ
  pub strftime : ℕ → String
  pub greater : Value → Value → Bool
  pub minus : Value → Value → Value
  pub plus : Value → Value → Value
  pub negate : Value → Value
  pub round_to : Value → ℕ → Value

abbrev pub Row : Type 0
Row = List Value

-- `csv_writer.writerow(row)`
unfoldable pub write_row : Row → Exec (Unit {0})
write_row row w = done tt (record w { printed = w.printed ++ row ∷ [] })

abbrev pub text_of : Option ChargePoint → Result String
text_of none = err does_not_exist
text_of (some cp) = ok (str_append cp.id (str_append " / " cp.name))

-- `str(transaction.charge_point)`
unfoldable pub charge_point_text : String → Exec String
charge_point_text id = reads (λ w. lift (text_of (find (λ r. str_eq r.id id) w.charge_points)))

abbrev within : ℕ → ℕ → Option ℕ → Bool
within first last none = false
within first last (some t) = leb first t && ltb t last

-- `stopped_at__gte=…, stopped_at__lt=…`
unfoldable pub stopped_between : ℕ → ℕ → Transaction → Bool
stopped_between first last t = within first last t.stopped_at

module _ ⦃p : Platform⦄ ⦃q : Reporting⦄ where
  unfoldable pub select_transactions : ℕ → ℕ → World → List Transaction
  unfolding stopped_between
  select_transactions first last w = q.by_started_at (
      p.transaction_table.filter (stopped_between (q.localize first) (q.localize last))
        w.transactions)
