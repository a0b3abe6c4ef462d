-- ===== src/OneOpen/Stopping.antt =====
-- Transaction.stop of be/ocpp/models/transaction.py and the loop over the orphans.
use levity.Prelude.{ℕ, ◌≤◌, String, ◌≡◌, refl, sym, subst, List, [], ◌∷◌, ℤ, map, ◌∙◌}
use levity.Middleware.Orphans.{stop_orphan, stop_orphans, last_reading}
use levity.Models.Rows.{Transaction, is_open_for}
use levity.Models.World.{World, Outcome, done, raised, world_of, and_then, ◌>>=◌}
use levity.Objects.Effects.{utc_now}
use levity.Objects.Transactions.{save_charge_point, save_transaction, stop, stopped}
use levity.OneOpen.Rows.{
  open_count, OneOpen, NoneOpen, stop_at, open_count-stop_at, Left, Left-stop_at, Left-nil,
  Left-all,
}
use levity.Platform.{Platform}
use levity.Types.Error.{Result, ok, err}
use levity.Types.Reason.{StopReason, other}
use levity.Value.{Value}
use native.Mathlib.Nat.{le_trans}

module _ ⦃p : Platform⦄ where
  -- The table after `stop`: untouched if it raises, else with that one row stopped.
  abbrev pub Stopped : Transaction → StopReason → World → Outcome (Unit {0}) → Type 0
  Stopped t reason w (done u w') =
      (meter : ℤ) × (now : ℕ) × (w'.transactions
        ≡ p.transaction_table.save t.id (stopped reason meter now) w.transactions)
  Stopped t reason w (raised e w') = w'.transactions ≡ w.transactions

  stop-cases :
      (t : Transaction) (reason : StopReason) (v : Value) (w : World) (r : Result ℤ)
      → p.integer_field v ≡ r
      → Stopped t reason w (stop t reason v w)
  unfolding stop utc_now save_transaction save_charge_point ◌>>=◌
  stop-cases t reason v w (ok meter) e = rw e (meter, p.utc_now w.clock_reads, refl)
  stop-cases t reason v w (err x) e = rw e refl

  pub stop-Stopped :
      (t : Transaction) (reason : StopReason) (v : Value) (w : World)
      → Stopped t reason w (stop t reason v w)
  stop-Stopped t reason v w = stop-cases t reason v w (p.integer_field v) refl

  stop_orphan-Stopped : (t : Transaction) (w : World) → Stopped t other w (stop_orphan t w)
  unfolding stop_orphan ◌>>=◌
  stop_orphan-Stopped t w = stop-Stopped t other (last_reading t.id w) w

  saved :
      (t : Transaction) (reason : StopReason) (meter : ℤ) (now : ℕ) (w w' : World)
      → (P : List Transaction → Type 0)
      → w'.transactions ≡ p.transaction_table.save t.id (stopped reason meter now) w.transactions
      → P (map (stop_at t.id reason meter now) w.transactions)
      → P w'.transactions
  saved t reason meter now w w' P e h =
      subst P
        (sym (e ∙ p.transaction_table.save_lem t.id (stopped reason meter now) w.transactions)) h

  -- Stopping keeps the count.
  pub OneOpen-Stopped :
      (t : Transaction) (reason : StopReason) (w : World) (o : Outcome (Unit {0}))
      → Stopped t reason w o
      → OneOpen w
      → OneOpen (world_of o)
  OneOpen-Stopped t reason w (done u w') (meter, now, e) h cp =
      saved t reason meter now w w' (λ rows. open_count cp rows ≤ 1) e
        (le_trans (open_count-stop_at cp t.id reason meter now w.transactions) (h cp))
  OneOpen-Stopped t reason w (raised x w') e h cp =
      subst (λ rows. open_count cp rows ≤ 1) (sym e) (h cp)

  -- The loop, over the rows that are left to stop.
  abbrev pub Closed : String → Outcome (Unit {0}) → Type 0
  Closed cp (done u w') = OneOpen w' × NoneOpen cp w'.transactions
  Closed cp (raised e w') = OneOpen w'

  after_one :
      (cp : String) (t : Transaction) (ts : List Transaction) (w : World) (o : Outcome (Unit {0}))
      → ((v : World) → Left cp ts v.transactions → OneOpen v → Closed cp (stop_orphans ts v))
      → Stopped t other w o
      → OneOpen (world_of o)
      → Left cp (t ∷ ts) w.transactions
      → Closed cp (and_then o (λ u. stop_orphans ts))
  after_one cp t ts w (done u w') rest (meter, now, e) one left =
      rest w'
        (saved t other meter now w w' (Left cp ts) e
          (Left-stop_at cp t ts other meter now w.transactions left))
        one
  after_one cp t ts w (raised x w') rest e one left = one

  pub stop_orphans-Closed :
      (cp : String) (ts : List Transaction) (w : World)
      → Left cp ts w.transactions
      → OneOpen w
      → Closed cp (stop_orphans ts w)
  unfolding stop_orphans ◌>>=◌
  stop_orphans-Closed cp [] w left one = (one, Left-nil cp w.transactions left)
  stop_orphans-Closed cp (t ∷ ts) w left one =
      let stopped_one = stop_orphan-Stopped t w in
      after_one cp t ts w (stop_orphan t w) (stop_orphans-Closed cp ts) stopped_one
        (OneOpen-Stopped t other w (stop_orphan t w) stopped_one one) left

  -- The rows that the query finds are all that are open.
  pub orphans-Left :
      (cp : String) (w : World)
      → Left cp (p.transaction_table.filter (is_open_for cp) w.transactions) w.transactions
  orphans-Left cp w =
      Left-all cp _ w.transactions
        (λ r i o. (p.transaction_table.filter_lem (is_open_for cp) r w.transactions).1 (i, o))
