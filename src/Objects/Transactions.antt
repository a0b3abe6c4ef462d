-- ===== src/Objects/Transactions.antt =====
-- be/ocpp/models/transaction.py: `Transaction.stop` and the creation of a transaction.
use levity.Prelude.{ℕ, String, some, ℤ}
use levity.Types.Reason.{StopReason}
use levity.Models.Rows.{ChargePoint, Transaction}
use levity.Models.World.{Exec, done, created, lift, ◌>>=◌, ◌>>◌}
use levity.Objects.Effects.{utc_now}
use levity.Platform.{Platform}
use levity.Value.{Value}

-- What `stop` assigns.
abbrev pub stopped : StopReason → ℤ → ℕ → Transaction → Transaction
stopped reason meter_stop now row = record row {
  meter_stop = meter_stop;
  stop_reason = some reason;
  stopped_at = some now;
}

module _ ⦃p : Platform⦄ where
  -- `charge_point.save(update_fields=[…])`
  unfoldable pub save_charge_point : String → (ChargePoint → ChargePoint) → Exec (Unit {0})
  save_charge_point id f w =
      done tt (record w { charge_points = p.charge_point_table.save id f w.charge_points })

  unfoldable pub save_transaction : ℕ → (Transaction → Transaction) → Exec (Unit {0})
  save_transaction id f w =
      done tt (record w { transactions = p.transaction_table.save id f w.transactions })

  -- `Transaction.objects.create(…)`
  unfoldable pub create_transaction : Transaction → Exec Transaction
  create_transaction t w =
      created (λ rows. record w { transactions = rows }) w
        (p.transaction_table.create t w.transactions)

  unfoldable pub stop : Transaction → StopReason → Value → Exec (Unit {0})
  stop t reason meter_stop = do
    now ← utc_now
    meter ← lift (p.integer_field meter_stop)
    save_transaction t.id (stopped reason meter now)
    later ← utc_now
    save_charge_point t.charge_point (λ row. record row { last_tx_stop_at = some later })
