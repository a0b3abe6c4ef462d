-- ===== src/Management/Corrections.antt =====
-- be/ocpp/management/commands/correct_meter_values.py.
pub mod Kept
pub mod Jumps
use levity.Prelude.{
  ℕ, String, Bool, true, false, Option, none, some, List, [], ◌∷◌, ◌++◌, ◌&&◌, ◌==◌, str_eq, pos, ℤ,
  not, if◌then◌else◌,
}
use levity.Management.Reporting.{Reporting, Row, write_row, charge_point_text, select_transactions}
use levity.Middleware.Orphans.{is_energy_of}
use levity.Models.Rows.{Transaction, MeterValue}
use levity.Models.World.{Exec, World, done, pure, lift, reads, ◌>>=◌, ◌>>◌}
use levity.Objects.Transactions.{save_transaction}
use levity.Platform.{Platform}
use levity.Value.{Value, str, num, truthy}

-- ENERGY_MAX_JUMP
abbrev pub energy_max_jump : Value
energy_max_jump = num (pos 10000) 0

abbrev pub correction_header : Row
correction_header =
    str "timestamp"
    ∷ str "charge_point"
    ∷ str "transaction.id"
    ∷ str "meter_value.id"
    ∷ str "meter_value.prev"
    ∷ str "meter_value.cur"
    ∷ str "meter_value.delta"
    ∷ str "transaction.meter_stop"
    ∷ str "transaction.meter_correction"
    ∷ []

module _ ⦃p : Platform⦄ ⦃q : Reporting⦄ where
  abbrev pub delta_value : MeterValue → MeterValue → Value
  delta_value prev cur = q.minus cur.value prev.value

  -- The test for a jump.
  unfoldable pub is_jump : MeterValue → MeterValue → Bool
  is_jump prev cur =
      truthy prev.value && truthy cur.value && q.greater (delta_value prev cur) energy_max_jump

  abbrev pub jump_row : Transaction → String → MeterValue → MeterValue → Row
  jump_row tx charge_point prev cur =
      str (q.strftime cur.timestamp)
      ∷ str charge_point
      ∷ num (pos tx.id) 0
      ∷ num (pos cur.id) 0
      ∷ q.round_to prev.value 2
      ∷ q.round_to cur.value 2
      ∷ q.round_to (delta_value prev cur) 2
      ∷ []

  -- `cur.save(update_fields=["is_incorrect"])`
  unfoldable pub save_incorrect : ℕ → Exec (Unit {0})
  save_incorrect id w = done tt (record w {
    meter_values =
        p.meter_value_table.save id (λ row. record row { is_incorrect = true }) w.meter_values;
  })

  -- The body of the test: the row, the mark, and the sum.
  unfoldable pub note_jump :
      Bool → Transaction → MeterValue → MeterValue → Value → List Row → Exec (Value × List Row)
  note_jump dry_run tx prev cur correction rows = do
    charge_point ← charge_point_text tx.charge_point
    if dry_run then pure tt else save_incorrect cur.id
    pure (q.plus correction (delta_value prev cur), rows ++ jump_row tx charge_point prev cur ∷ [])

  -- One round of the loop over the readings.
  unfoldable pub read_value :
      Bool
      → Transaction
      → Option MeterValue
      → MeterValue
      → Value
      → List Row
      → Exec (Value × List Row)
  read_value dry_run tx none cur correction rows = pure (correction, rows)
  read_value dry_run tx (some prev) cur correction rows =
      if is_jump prev cur
      then note_jump dry_run tx prev cur correction rows
      else pure (correction, rows)

  unfoldable pub read_values :
      Bool
      → Transaction
      → Option MeterValue
      → List MeterValue
      → Value
      → List Row
      → Exec (Value × List Row)
  read_values dry_run tx prev [] correction rows = pure (correction, rows)
  read_values dry_run tx prev (cur ∷ rest) correction rows = do
    (correction', rows') ← read_value dry_run tx prev cur correction rows
    read_values dry_run tx (some cur) rest correction' rows'

  -- `row += […]` and `writerow`
  unfoldable pub print_rows : Transaction → Value → List Row → Exec (Unit {0})
  print_rows tx corrected [] = pure tt
  print_rows tx corrected (row ∷ rows) = do
    write_row (row ++ q.round_to (num tx.meter_stop 0) 2 ∷ q.round_to corrected 2 ∷ [])
    print_rows tx corrected rows

  unfoldable pub save_correction : ℕ → Value → Exec (Unit {0})
  save_correction id corrected = do
    meter_correction ← lift (p.integer_field corrected)
    save_transaction id (λ row. record row { meter_correction = meter_correction })

  unfoldable pub print_and_save : Bool → Transaction → Value → List Row → Exec (Unit {0})
  print_and_save dry_run tx corrected rows = do
    print_rows tx corrected rows
    if dry_run then pure tt else save_correction tx.id corrected

  -- `if meter_correction: …`
  unfoldable pub finish_transaction : Bool → Transaction → Value → List Row → Exec (Unit {0})
  finish_transaction dry_run tx correction rows =
      if truthy correction then print_and_save dry_run tx (q.negate correction) rows else pure tt

  unfoldable pub readings_of : Transaction → World → List MeterValue
  readings_of tx w = q.by_timestamp (p.meter_value_table.filter (is_energy_of tx.id) w.meter_values)

  unfoldable pub correct_transaction : Bool → Transaction → Exec (Unit {0})
  correct_transaction dry_run tx = do
    (correction, rows) ←
        reads (λ w. read_values dry_run tx none (readings_of tx w) (num (pos 0) 0) [])
    finish_transaction dry_run tx correction rows

  unfoldable pub correct_transactions : Bool → List Transaction → Exec (Unit {0})
  correct_transactions dry_run [] = pure tt
  correct_transactions dry_run (tx ∷ txs) = do
    correct_transaction dry_run tx
    correct_transactions dry_run txs

  -- `Command.handle`
  unfoldable pub correct_meter_values : ℕ → ℕ → Bool → Exec (Unit {0})
  correct_meter_values first last dry_run = do
    write_row correction_header
    reads (λ w. correct_transactions dry_run (select_transactions first last w))
