-- ===== src/Middleware/Orphans.antt =====
-- be/ocpp/services/ocpp/automation/orphaned_transaction.py: a new transaction closes those that its
-- charge point left open.
use levity.Prelude.{String, ℕ, Bool, Option, none, some, List, [], ◌∷◌, pos, ◌==◌, ◌&&◌, str_eq}
use levity.Middleware.Base.{assert_action}
use levity.Models.Exchange.{Handler}
use levity.Models.Rows.{MeterValue, Transaction, is_open_for}
use levity.Models.World.{Exec, World, done, pure, reads, ◌>>=◌, ◌>>◌}
use levity.Objects.Meters.{energy_register}
use levity.Objects.Transactions.{stop}
use levity.Platform.{Platform}
use levity.Types.Action.{start_transaction}
use levity.Types.Reason.{other}
use levity.Value.{Value, num}

-- A reading of a transaction's energy register.
unfoldable pub is_energy_of : ℕ → MeterValue → Bool
is_energy_of t r = (r.transaction == t) && str_eq r.measurand energy_register

-- `last_meter_value.value if last_meter_value else 0`
unfoldable pub value_or_zero : Option MeterValue → Value
value_or_zero none = num (pos 0) 0
value_or_zero (some r) = r.value

module _ ⦃p : Platform⦄ where
  unfoldable pub last_reading : ℕ → World → Value
  last_reading t w =
      value_or_zero (p.meter_value_table.last_by (λ r. r.timestamp) (is_energy_of t) w.meter_values)

  unfoldable pub stop_orphan : Transaction → Exec (Unit {0})
  stop_orphan t = reads (λ w. stop t other (last_reading t.id w))

  -- `for orphaned_tx in …`
  unfoldable pub stop_orphans : List Transaction → Exec (Unit {0})
  stop_orphans [] = pure tt
  stop_orphans (t ∷ ts) = do stop_orphan t; stop_orphans ts

  -- `Transaction.objects.filter(charge_point=…, stopped_at__isnull=True)`
  unfoldable pub orphaned_transactions : String → Exec (List Transaction)
  orphaned_transactions cp w = done (p.transaction_table.filter (is_open_for cp) w.transactions) w

  -- The loop over the query.
  unfoldable pub stop_all : String → Exec (Unit {0})
  stop_all cp = do orphans ← orphaned_transactions cp; stop_orphans orphans

  unfoldable pub handle_orphaned_transaction : Handler → Handler
  handle_orphaned_transaction next req = do
    assert_action start_transaction req.message
    stop_all req.message.charge_point
    next req
