-- ===== src/OneOpen/Rows.antt =====
-- Counting the open transactions of a charge point in a list of rows.
use levity.Prelude.{
  ℕ, ◌≤◌, String, ◌≡◌, ap, true, false, List, [], ◌∷◌, ◌++◌, map, All, In, here, there, count, keep,
  any, length, length-append, keep-append, keep_none, In-All, ◌==◌, if◌then◌else◌, Bool-cases, inl,
  inr, arith, str_eq, eq_iff, subst, ◌∙◌, ℤ, none, some,
}
use levity.Models.Rows.{Transaction, is_open_for}
use levity.Models.World.{World}
use levity.Types.Reason.{StopReason}

-- How many transactions the charge point has open.
abbrev pub open_count : String → List Transaction → ℕ
open_count cp rows = count (is_open_for cp) rows

abbrev pub OneOpen : World → Type 0
OneOpen w = (cp : String) → open_count cp w.transactions ≤ 1

abbrev pub NoneOpen : String → List Transaction → Type 0
NoneOpen cp rows = All (λ t. is_open_for cp t ≡ false) rows

-- `if pk == k then f else row`, for a row that is stopped.
abbrev pub stop_at : ℕ → StopReason → ℤ → ℕ → Transaction → Transaction
stop_at k reason meter now row =
    if row.id == k
    then record row { meter_stop = meter; stop_reason = some reason; stopped_at = some now }
    else row

-- Stopping rows opens none.
pub open_count-stop_at :
    (cp : String) (k : ℕ) (reason : StopReason) (meter : ℤ) (now : ℕ) (rows : List Transaction)
    → open_count cp (map (stop_at k reason meter now) rows) ≤ open_count cp rows
unfolding is_open_for
open_count-stop_at cp k reason meter now [] = omega arith
open_count-stop_at cp k reason meter now (r ∷ rs) =
    ground (arith, open_count-stop_at cp k reason meter now rs)

-- The open rows are among those whose keys are left to stop.
abbrev pub Left : String → List Transaction → List Transaction → Type 0
Left cp ts rows = All (λ r. is_open_for cp r ≡ true → any (λ t. t.id == r.id) ts ≡ true) rows

pub Left-stop_at :
    (cp : String) (t : Transaction) (ts : List Transaction) (reason : StopReason) (meter : ℤ)
    (now : ℕ) (rows : List Transaction)
    → Left cp (t ∷ ts) rows
    → Left cp ts (map (stop_at t.id reason meter now) rows)
unfolding is_open_for
Left-stop_at cp t ts reason meter now [] h = tt
Left-stop_at cp t ts reason meter now (r ∷ rs) h =
    (ground (arith, h.0), Left-stop_at cp t ts reason meter now rs h.1)

pub Left-nil : (cp : String) (rows : List Transaction) → Left cp [] rows → NoneOpen cp rows
Left-nil cp [] h = tt
Left-nil cp (r ∷ rs) h = (ground (arith, h.0), Left-nil cp rs h.1)

any_same_id :
    (r : Transaction) (ts : List Transaction) → In r ts → any (λ t. t.id == r.id) ts ≡ true
any_same_id r [] i = elim i [ ]
any_same_id r (t ∷ ts) (here e) = ground (arith, ap (λ (x : Transaction). x.id) e)
any_same_id r (t ∷ ts) (there i) = ground (arith, any_same_id r ts i)

pub Left-all :
    (cp : String) (ts rows : List Transaction)
    → ((r : Transaction) → In r rows → is_open_for cp r ≡ true → In r ts)
    → Left cp ts rows
Left-all cp ts rows h = In-All _ rows (λ r i o. any_same_id r ts (h r i o))

-- A new open row of one charge point.
pub open_count_new :
    (cp : String) (t : Transaction) (rows : List Transaction)
    → t.stopped_at ≡ none
    → NoneOpen t.charge_point rows
    → open_count cp rows ≤ 1
    → open_count cp (rows ++ t ∷ []) ≤ 1
unfolding is_open_for
open_count_new cp t rows new closed one =
    let split =
      ap length (keep-append (is_open_for cp) rows (t ∷ []))
      ∙ length-append (keep (is_open_for cp) rows) (keep (is_open_for cp) (t ∷ [])) in
    elim (Bool-cases (str_eq t.charge_point cp)) [
      | inl same ↦
          let none_open = keep_none (is_open_for t.charge_point) rows closed in
          let here_none : open_count cp rows ≡ 0 =
            subst (λ c. open_count c rows ≡ 0) ((eq_iff t.charge_point cp).0 same)
              (ap length none_open) in
          rw split (ground (arith, here_none))
      | inr other ↦ rw split (ground arith)
    ]

pub open_count_new_self :
    (t : Transaction) (rows : List Transaction)
    → t.stopped_at ≡ none
    → NoneOpen t.charge_point rows
    → open_count t.charge_point (rows ++ t ∷ []) ≡ 1
unfolding is_open_for
open_count_new_self t rows new closed =
    let split =
      ap length (keep-append (is_open_for t.charge_point) rows (t ∷ []))
      ∙ length-append (keep (is_open_for t.charge_point) rows)
          (keep (is_open_for t.charge_point) (t ∷ [])) in
    rw (split, keep_none (is_open_for t.charge_point) rows closed)
      (ground (arith, eq_iff t.charge_point t.charge_point))
