-- ===== src/OneOpen/Closing.antt =====
-- The rows that be/ocpp/services/ocpp/automation/orphaned_transaction.py leaves.
use levity.Prelude.{
  ℕ, String, ◌≡◌, refl, sym, subst, ◌∙◌, ap, true, false, List, [], ◌∷◌, ℤ, map, any, In, here,
  there, ◌==◌, Bool-cases, inl, inr, ◌⊎◌, arith, All, Option-cases, ◌≤◌, pos, some,
}
use levity.Middleware.Orphans.{
  last_reading, value_or_zero, is_energy_of, stop_orphan, stop_orphans, orphaned_transactions,
  stop_all,
}
use levity.Logic.Total.{Total, Total-bind, Total-returns}
use levity.Models.Rows.{Transaction, MeterValue, is_open_for}
use levity.Models.World.{World, done, pure, reads, ◌>>=◌}
use levity.Objects.Effects.{utc_now}
use levity.Objects.Transactions.{save_charge_point, save_transaction, stop, stopped}
use levity.OneOpen.Opening.{Readable, last_reading_fits}
use levity.OneOpen.Rows.{stop_at}
use levity.Platform.{Platform}
use levity.Types.Error.{ok}
use levity.Types.Reason.{other}
use levity.Value.{Value, num}

-- Two lists of rows, related one by one.
pub data Rowwise (R : Transaction → Transaction → Type 0)
    : List Transaction → List Transaction → Type 0 where
  ended : Rowwise R [] []
  row :
      {r s : Transaction} {rs ss : List Transaction}
      → R r s
      → Rowwise R rs ss
      → Rowwise R (r ∷ rs) (s ∷ ss)

Rowwise-map :
    {R S : Transaction → Transaction → Type 0} (f : Transaction → Transaction)
    {rs ss : List Transaction}
    → ((r s : Transaction) → In r rs → R r s → S r (f s))
    → Rowwise R rs ss
    → Rowwise S rs (map f ss)
Rowwise-map f step ended = ended
Rowwise-map f step (row h rest) =
    row (step _ _ (here refl) h) (Rowwise-map f (λ q u i. step q u (there i)) rest)

Rowwise-self :
    {R : Transaction → Transaction → Type 0} (rs : List Transaction)
    → ((r : Transaction) → In r rs → R r r)
    → Rowwise R rs rs
Rowwise-self [] each = ended
Rowwise-self (r ∷ rs) each = row (each r (here refl)) (Rowwise-self rs (λ q i. each q (there i)))

Rowwise-imp :
    {R S : Transaction → Transaction → Type 0} {rs ss : List Transaction}
    → ((r s : Transaction) → R r s → S r s)
    → Rowwise R rs ss
    → Rowwise S rs ss
Rowwise-imp imp ended = ended
Rowwise-imp imp (row h rest) = row (imp _ _ h) (Rowwise-imp imp rest)

any_key : (r : Transaction) (ts : List Transaction) → In r ts → any (λ t. t.id == r.id) ts ≡ true
any_key r (t ∷ ts) (here e) = let same : r.id ≡ t.id = ap (λ s. s.id) e in ground (arith, same)
any_key r (t ∷ ts) (there i) = ground (arith, any_key r ts i)
any_key r [] x = elim x [ ]

-- A primary key.
abbrev pub Keyed : List Transaction → Type 0
Keyed rows = (r s : Transaction) → In r rows → In s rows → r.id ≡ s.id → r ≡ s

module _ ⦃p : Platform⦄ (cp : String) (w : World) where
  -- The value of the transaction's energy register that was read last, or zero for no reading.
  abbrev pub IsLatest : ℕ → Value → Type 0
  IsLatest t v =
      ((r : MeterValue) × In r w.meter_values
        × (is_energy_of t r ≡ true)
        × All (λ s. is_energy_of t s ≡ true → s.timestamp ≤ r.timestamp) w.meter_values
        × (v ≡ r.value))
      ⊎ (All (λ s. is_energy_of t s ≡ false) w.meter_values × (v ≡ num (pos 0) 0))

  last_reading-IsLatest : (t : ℕ) → IsLatest t (last_reading t w)
  unfolding last_reading value_or_zero
  last_reading-IsLatest t =
      elim (Option-cases
        (p.meter_value_table.last_by (λ r. r.timestamp) (is_energy_of t) w.meter_values)) [
          | inl missing ↦ inr (
            p.meter_value_table.last_by_none (λ r. r.timestamp) (is_energy_of t) w.meter_values
                missing,
            rw missing refl,
          )
          | inr (r, found) ↦
              let (stored, energy, latest) =
                p.meter_value_table.last_by_some (λ s. s.timestamp) (is_energy_of t) w.meter_values
                  r found in
              inl (r, stored, energy, latest, rw found refl)
        ]

  -- An open row of the charge point, and the row once it is stopped with its last reading.
  abbrev StoppedAs : Transaction → Transaction → Type 0
  StoppedAs r s =
      (is_open_for cp r ≡ true)
      × (now : ℕ) × (meter : ℤ) × (p.integer_field (last_reading r.id w) ≡ ok meter)
      × (s ≡ record r { meter_stop = meter; stop_reason = some other; stopped_at = some now })

  -- A row before and after, with all orphans stopped.
  abbrev pub Closes : Transaction → Transaction → Type 0
  Closes r s =
      ((is_open_for cp r ≡ false) × (s ≡ r))
      ⊎ ((is_open_for cp r ≡ true)
          × (now : ℕ) × (v : Value) × (meter : ℤ) × IsLatest r.id v
          × (p.integer_field v ≡ ok meter)
          × (s ≡ record r { meter_stop = meter; stop_reason = some other; stopped_at = some now }))

  -- With these left to stop.
  abbrev Pending : List Transaction → Transaction → Transaction → Type 0
  Pending ts r s =
      ((s ≡ r) × (is_open_for cp r ≡ true → any (λ t. t.id == r.id) ts ≡ true)) ⊎ StoppedAs r s

  Pending-nil : (r s : Transaction) → Pending [] r s → Closes r s
  Pending-nil r s (inl (same, left)) = elim (Bool-cases (is_open_for cp r)) [
    | inl e ↦ absurd (cc (left e))
    | inr e ↦ inl (e, same)
  ]
  Pending-nil r s (inr (o, now, meter, fits, same)) =
      inr (o, now, last_reading r.id w, meter, last_reading-IsLatest r.id, fits, same)

  module _ (keyed : Keyed w.transactions) (readable : Readable w.meter_values) where
    close_row :
        (t : Transaction) (ts : List Transaction) (meter : ℤ) (now : ℕ)
        → In t w.transactions
        → is_open_for cp t ≡ true
        → p.integer_field (last_reading t.id w) ≡ ok meter
        → (r s : Transaction) → In r w.transactions
        → Pending (t ∷ ts) r s
        → Pending ts r (stop_at t.id other meter now s)
    close_row t ts meter now i is_open fits r s j (inl (same, left)) =
        elim (Bool-cases (r.id == t.id)) [
          | inl e ↦
              let it : r ≡ t = keyed r t j i (ground arith) in
              inr (ap (is_open_for cp) it ∙ is_open, now, meter, rw it fits, rw (same, e) refl)
          | inr e ↦ inl (rw (same, e) refl, λ o. ground (arith, left o))
        ]
    close_row t ts meter now i is_open fits r s j (inr (o, before, read, fitted, same)) =
        elim (Bool-cases (r.id == t.id)) [
          | inl e ↦
              let it : r ≡ t = keyed r t j i (ground arith) in
              inr (o, now, meter, rw it fits, rw (same, e) refl)
          | inr e ↦ inr (o, before, read, fitted, rw (same, e) refl)
        ]

    last_reading_same :
        (t : ℕ) (v : World) → v.meter_values ≡ w.meter_values → last_reading t v ≡ last_reading t w
    unfolding last_reading
    last_reading_same t v same = rw same refl

    -- What the loop over the orphans keeps.
    abbrev Loop : List Transaction → World → Type 0
    Loop ts v =
        Rowwise (Pending ts) w.transactions v.transactions × (v.meter_values ≡ w.meter_values)

    stop_orphan-Loop :
        (t : Transaction) (ts : List Transaction)
        → In t w.transactions
        → is_open_for cp t ≡ true
        → Total (Loop (t ∷ ts)) (λ u. Loop ts) (stop_orphan t)
    unfolding stop_orphan reads stop utc_now save_transaction save_charge_point ◌>>=◌
    stop_orphan-Loop t ts i is_open = record {
      at = λ v h.
          let (meter, fits) = last_reading_fits t.id w readable in
          let now = p.utc_now v.clock_reads in
          rw (last_reading_same t.id v h.1, fits)
            (
              subst (Rowwise (Pending ts) w.transactions)
                  (sym (p.transaction_table.save_lem t.id (stopped other meter now) v.transactions))
                  (Rowwise-map (stop_at t.id other meter now)
                    (close_row t ts meter now i is_open fits) h.0),
              h.1,
            );
    }

    stop_orphans-Loop :
        (ts : List Transaction)
        → ((t : Transaction) → In t ts → In t w.transactions × (is_open_for cp t ≡ true))
        → Total (Loop ts) (λ u. Loop []) (stop_orphans ts)
    unfolding stop_orphans pure
    stop_orphans-Loop [] orphans = record { at = λ v h. h }
    stop_orphans-Loop (t ∷ ts) orphans =
        let (i, is_open) = orphans t (here refl) in
        Total-bind (λ u. Loop ts) (λ u. Loop []) (stop_orphan t) _ (stop_orphan-Loop t ts i is_open)
          (λ u. stop_orphans-Loop ts (λ s j. orphans s (there j)))

    -- If the keys are unique and every reading, and zero, fits the column of a meter stop, the look-up
    -- and the loop over the orphans of a charge point return, and row by row, each transaction of it
    -- that was open is stopped for the reason Other with the latest reading of its energy register, or
    -- zero, and each other transaction is as it was.
    pub stop_all-Closes :
        (v : World) × (stop_all cp w ≡ done tt v) × Rowwise Closes w.transactions v.transactions
    unfolding stop_all orphaned_transactions ◌>>=◌
    stop_all-Closes =
        let orphans = p.transaction_table.filter (is_open_for cp) w.transactions in
        let start = Rowwise-self w.transactions (λ r i. inl (
          refl,
          λ o.
              any_key r orphans
                ((p.transaction_table.filter_lem (is_open_for cp) r w.transactions).1 (i, o)),
        )) in
        let (u, v, ran, loop) =
          Total-returns (Loop orphans) (λ u. Loop []) (stop_orphans orphans) w
            (stop_orphans-Loop orphans
              (λ t. (p.transaction_table.filter_lem (is_open_for cp) t w.transactions).0))
            (start, refl) in
        (v, ran, Rowwise-imp Pending-nil loop.0)
