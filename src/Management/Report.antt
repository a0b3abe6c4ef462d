-- ===== src/Management/Report.antt =====
-- be/ocpp/management/commands/run_report.py.
use levity.Prelude.{ℕ, String, Option, none, some, List, [], ◌∷◌, str_eq, pos, if◌then◌else◌}
use levity.Management.Reporting.{Reporting, Row, write_row, charge_point_text, select_transactions}
use levity.Models.Rows.{Transaction}
use levity.Models.World.{Exec, pure, raise, lift, reads, ◌>>=◌, ◌>>◌}
use levity.Platform.{Platform}
use levity.Types.Error.{Result, ok, err, attribute_error, value_error}
use levity.Types.Reason.{StopReason, stop_reason_value}
use levity.Value.{Value, null, str, num}

abbrev pub report_header : Row
report_header =
    str "id"
    ∷ str "charge_point"
    ∷ str "started_at"
    ∷ str "stopped_at"
    ∷ str "meter"
    ∷ str "meter_correction"
    ∷ str "stop_reason"
    ∷ []

-- The text of the column, or None.
unfoldable pub reason_cell : Option StopReason → Value
unfolding stop_reason_value
reason_cell none = null
reason_cell (some r) = str (stop_reason_value r)

module _ ⦃p : Platform⦄ ⦃q : Reporting⦄ where
  -- `t.astimezone(tz).strftime(DATETIME_FORMAT)`, which None lacks
  unfoldable pub date_text : Option ℕ → Result String
  date_text none = err attribute_error
  date_text (some t) = ok (q.strftime t)

  unfoldable pub report_row : Transaction → Exec Row
  report_row tx = do
    charge_point ← charge_point_text tx.charge_point
    started_at ← lift (date_text tx.started_at)
    stopped_at ← lift (date_text tx.stopped_at)
    pure (
        num (pos tx.id) 0
        ∷ str charge_point
        ∷ str started_at
        ∷ str stopped_at
        ∷ num tx.meter_stop 0
        ∷ num tx.meter_correction 0
        ∷ reason_cell tx.stop_reason
        ∷ [])

  unfoldable pub report_rows : List Transaction → Exec (Unit {0})
  report_rows [] = pure tt
  report_rows (tx ∷ txs) = do row ← report_row tx; write_row row; report_rows txs

  unfoldable pub report_transactions : ℕ → ℕ → Exec (Unit {0})
  report_transactions first last =
      reads (λ w. do write_row report_header; report_rows (select_transactions first last w))

  -- `Command.handle`
  unfoldable pub run_report : String → ℕ → ℕ → Exec (Unit {0})
  run_report report_type first last =
      if str_eq report_type "transaction"
      then report_transactions first last
      else if str_eq report_type "message"
      then pure tt
      else raise value_error
