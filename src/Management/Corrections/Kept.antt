-- ===== src/Management/Corrections/Kept.antt =====
-- What be/ocpp/management/commands/correct_meter_values.py and run_report.py leave as it is.
use levity.Prelude.{
  ℕ, String, ◌≡◌, refl, ap, ◌∙◌, Bool, true, false, Option, none, some, List, [], ◌∷◌, map, pos,
  if◌then◌else◌, ◌==◌, Bool-cases, inl, inr,
}
use levity.Logic.Keeps.{Keeps, Keeps-bind, Keeps-pure, Keeps-lift, Keeps-if, keeps_rules}
use levity.Management.Corrections.{
  save_incorrect, note_jump, read_value, read_values, print_rows, save_correction, print_and_save,
  finish_transaction, correct_transaction, correct_transactions, correct_meter_values,
}
use levity.Management.Report.{report_row, report_rows, report_transactions, run_report, date_text}
use levity.Management.Reporting.{Reporting, Row, write_row, charge_point_text}
use levity.Models.Rows.{Transaction, MeterValue}
use levity.Models.World.{World, Exec, pure, lift, world_of}
use levity.Objects.Transactions.{save_transaction}
use levity.Platform.{Platform}
use levity.Value.{Value}

-- All of a state but what was printed.
abbrev pub unprinted : World → World
unprinted w = record w { printed = [] }

abbrev pub without_correction : Transaction → Transaction
without_correction t = record t { meter_correction = pos 0 }

abbrev pub unmarked : MeterValue → MeterValue
unmarked r = record r { is_incorrect = false }

-- All of a state but what was printed and the columns that the corrections write.
abbrev pub uncorrected : World → World
uncorrected w = record w {
  printed = [];
  transactions = map without_correction w.transactions;
  meter_values = map unmarked w.meter_values;
}

map_written {ℓ} :
    {A B : Type ℓ} (g : A → B) (f : A → A) (at_key : A → Bool) (rows : List A)
    → ((a : A) → g (f a) ≡ g a)
    → map g (map (λ a. if at_key a then f a else a) rows) ≡ map g rows
map_written g f at_key [] same = refl
map_written g f at_key (a ∷ rows) same = elim (Bool-cases (at_key a)) [
  | inl here ↦ rw here (λ i. same a i ∷ map_written g f at_key rows same i)
  | inr elsewhere ↦ rw elsewhere (ap (λ l. g a ∷ l) (map_written g f at_key rows same))
]

module _ ⦃p : Platform⦄ ⦃q : Reporting⦄ where
  -- The writes of a command keep `P`; those to the database only matter outside a dry run.
  record Writes (dry_run : Bool) (P : World → Type 0) : Type 0 where
    printing : (row : Row) → Keeps P (write_row row)
    marking : dry_run ≡ false → (id : ℕ) → Keeps P (save_incorrect id)
    correcting :
        dry_run ≡ false
        → (id : ℕ) (f : Transaction → Transaction)
        → ((t : Transaction) → record (f t) { meter_correction = t.meter_correction } ≡ t)
        → Keeps P (save_transaction id f)

  module _ (P : World → Type 0) where
    charge_point_text-Keeps : (id : String) → Keeps P (charge_point_text id)
    unfolding charge_point_text
    charge_point_text-Keeps id = search keeps_rules depth 10

    unless_dry-Keeps :
        (dry_run : Bool) (m : Exec (Unit {0}))
        → (dry_run ≡ false → Keeps P m)
        → Keeps P (if dry_run then pure tt else m)
    unless_dry-Keeps true m k = Keeps-pure tt
    unless_dry-Keeps false m k = k refl

    module _ (dry_run : Bool) (w : Writes dry_run P) (tx : Transaction) where
      note_jump-Keeps :
          (prev cur : MeterValue) (c : Value) (rows : List Row)
          → Keeps P (note_jump dry_run tx prev cur c rows)
      unfolding note_jump
      note_jump-Keeps prev cur c rows =
          Keeps-bind (charge_point_text tx.charge_point) _ (charge_point_text-Keeps tx.charge_point)
            (λ text.
              Keeps-bind (if dry_run then pure tt else save_incorrect cur.id) _
                (unless_dry-Keeps dry_run (save_incorrect cur.id) (λ e. w.marking e cur.id))
                (λ u. Keeps-pure _))

      read_value-Keeps :
          (prev : Option MeterValue) (cur : MeterValue) (c : Value) (rows : List Row)
          → Keeps P (read_value dry_run tx prev cur c rows)
      unfolding read_value
      read_value-Keeps none cur c rows = search keeps_rules
      read_value-Keeps (some prev) cur c rows = search (keeps_rules, note_jump-Keeps)

      read_values-Keeps :
          (prev : Option MeterValue) (values : List MeterValue) (c : Value) (rows : List Row)
          → Keeps P (read_values dry_run tx prev values c rows)
      unfolding read_values
      read_values-Keeps prev [] c rows = search keeps_rules
      read_values-Keeps prev (cur ∷ rest) c rows =
          Keeps-bind (read_value dry_run tx prev cur c rows) _ (read_value-Keeps prev cur c rows)
            (λ found. read_values-Keeps (some cur) rest found.0 found.1)

      print_rows-Keeps : (v : Value) (rows : List Row) → Keeps P (print_rows tx v rows)
      unfolding print_rows
      print_rows-Keeps v [] = search keeps_rules
      print_rows-Keeps v (row ∷ rows) =
          Keeps-bind (write_row _) _ (w.printing _) (λ u. print_rows-Keeps v rows)

      save_correction-Keeps :
          dry_run ≡ false → (id : ℕ) (v : Value) → Keeps P (save_correction id v)
      unfolding save_correction
      save_correction-Keeps e id v =
          Keeps-bind (lift _) _ (Keeps-lift _) (λ n. w.correcting e id _ (λ t. refl))

      finish_transaction-Keeps :
          (c : Value) (rows : List Row) → Keeps P (finish_transaction dry_run tx c rows)
      unfolding finish_transaction print_and_save
      finish_transaction-Keeps c rows =
          Keeps-if _ _ _
            (Keeps-bind (print_rows tx _ rows) _ (print_rows-Keeps _ rows)
              (λ u. unless_dry-Keeps dry_run _ (λ e. save_correction-Keeps e tx.id _)))
            (Keeps-pure tt)

      correct_transaction-Keeps : Keeps P (correct_transaction dry_run tx)
      unfolding correct_transaction
      correct_transaction-Keeps =
          search (keeps_rules, read_values-Keeps, finish_transaction-Keeps) depth 20

    correct_transactions-Keeps :
        (dry_run : Bool)
        → Writes dry_run P
        → (txs : List Transaction) → Keeps P (correct_transactions dry_run txs)
    unfolding correct_transactions
    correct_transactions-Keeps dry_run w [] = search keeps_rules
    correct_transactions-Keeps dry_run w (tx ∷ txs) =
        Keeps-bind (correct_transaction dry_run tx) _ (correct_transaction-Keeps dry_run w tx)
          (λ u. correct_transactions-Keeps dry_run w txs)

    correct_meter_values-Keeps :
        (first last : ℕ) (dry_run : Bool)
        → Writes dry_run P
        → Keeps P (correct_meter_values first last dry_run)
    unfolding correct_meter_values
    correct_meter_values-Keeps first last dry_run w =
        Keeps-bind (write_row _) _ (w.printing _)
          (λ u. search (keeps_rules, correct_transactions-Keeps dry_run w) depth 10)

    module _ (printing : (row : Row) → Keeps P (write_row row)) where
      date_lift-Keeps : (t : Option ℕ) → Keeps P (lift (date_text t))
      date_lift-Keeps t = Keeps-lift (date_text t)

      report_row-Keeps : (tx : Transaction) → Keeps P (report_row tx)
      unfolding report_row
      report_row-Keeps tx = search (keeps_rules, charge_point_text-Keeps) depth 20

      report_rows-Keeps : (txs : List Transaction) → Keeps P (report_rows txs)
      unfolding report_rows
      report_rows-Keeps [] = search keeps_rules
      report_rows-Keeps (tx ∷ txs) =
          Keeps-bind (report_row tx) _ (report_row-Keeps tx)
            (λ row. Keeps-bind (write_row row) _ (printing row) (λ u. report_rows-Keeps txs))

      run_report-Keeps : (kind : String) (first last : ℕ) → Keeps P (run_report kind first last)
      unfolding run_report report_transactions
      run_report-Keeps kind first last = search (keeps_rules, printing, report_rows-Keeps) depth 20

  printing-unprinted :
      (v : World) (row : Row) → Keeps (λ w. unprinted w ≡ unprinted v) (write_row row)
  unfolding write_row
  printing-unprinted v row = record { at = λ w h. h }

  -- A dry run of the corrections, and any report, print and do nothing else, also where they raise.
  pub dry_run-unprinted :
      (first last : ℕ) (kind : String) (v : World)
      → (unprinted (world_of (correct_meter_values first last true v)) ≡ unprinted v)
        × (unprinted (world_of (run_report kind first last v)) ≡ unprinted v)
  dry_run-unprinted first last kind v =
      let writes : Writes true (λ w. unprinted w ≡ unprinted v) = record {
        printing = printing-unprinted v;
        marking = λ e id. cc;
        correcting = λ e id f h. cc;
      } in
      (
        (correct_meter_values-Keeps _ first last true writes).at v refl,
        (run_report-Keeps _ (printing-unprinted v) kind first last).at v refl,
      )

  uncorrected-Writes : (v : World) → Writes false (λ w. uncorrected w ≡ uncorrected v)
  unfolding save_incorrect save_transaction write_row
  uncorrected-Writes v = record {
    printing = λ row. record { at = λ w h. h };
    marking = λ e id. record {
      at = λ w h.
          let saved =
            ap (map unmarked) (
              p.meter_value_table.save_lem id (λ row. record row { is_incorrect = true })
                w.meter_values)
            ∙ map_written unmarked (λ row. record row { is_incorrect = true }) (λ r. r.id == id)
                w.meter_values (λ r. refl) in
          ap (λ rows. record (uncorrected w) { meter_values = rows }) saved ∙ h;
    };
    correcting = λ e id f only. record {
      at = λ w h.
          let saved =
            ap (map without_correction) (p.transaction_table.save_lem id f w.transactions)
            ∙ map_written without_correction f (λ r. r.id == id) w.transactions
                (λ t. ap without_correction (only t)) in
          ap (λ rows. record (uncorrected w) { transactions = rows }) saved ∙ h;
    };
  }

  -- The corrections change no more than the marks of readings and the corrections of transactions,
  -- beside what they print, also where they raise.
  pub correct_meter_values-uncorrected :
      (first last : ℕ) (v : World)
      → uncorrected (world_of (correct_meter_values first last false v)) ≡ uncorrected v
  correct_meter_values-uncorrected first last v =
      (correct_meter_values-Keeps _ first last false (uncorrected-Writes v)).at v refl
