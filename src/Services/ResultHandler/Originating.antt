-- ===== src/Services/ResultHandler/Originating.antt =====
-- The look-up of the originating call, in be/ocpp/services/charge_point_message_handler.py.
use levity.Prelude.{
  ◌≡◌, refl, sym, ap, subst, ◌∙◌, Bool, true, false, List, [], ◌∷◌, ◌⊎◌, inl, inr, All, All-imp,
  All-In, In, here, there, keep, eq_iff, Bool-cases, arith,
}
use mathlib.Core.Bool.{false≢true}
use levity.Models.Rows.{Message, clash, same_actor}
use levity.Platform.{Platform}
use levity.Platform.Tables.{the_only}
use levity.Services.ResultHandler.{is_call_of}
use levity.Types.Action.{charge_point, central_system}
use levity.Types.Error.{Result, ok, err, does_not_exist}
use levity.Types.MessageType.{call_result, same_message_type}

-- `unique_together`: no two rows clash.
abbrev pub Unique : List Message → Type 0
Unique [] = Unit
Unique (r ∷ rs) = All (λ s. clash r s ≡ false) rs × Unique rs

module _ {A : Type 0} where
  pub All-keep : (P : A → Type 0) (p : A → Bool) (xs : List A) → All P xs → All P (keep p xs)
  All-keep P p [] h = tt
  All-keep P p (x ∷ xs) h = elim (Bool-cases (p x)) [
    | inl e ↦ rw e (h.0, All-keep P p xs h.1)
    | inr e ↦ rw e (All-keep P p xs h.1)
  ]

  pub keep-All : (p : A → Bool) (xs : List A) → All (λ x. p x ≡ true) (keep p xs)
  keep-All p [] = tt
  keep-All p (x ∷ xs) = elim (Bool-cases (p x)) [
    | inl e ↦ rw e (e, keep-All p xs)
    | inr e ↦ rw e (keep-All p xs)
  ]

pub Unique-keep : (p : Message → Bool) (rs : List Message) → Unique rs → Unique (keep p rs)
Unique-keep p [] u = tt
Unique-keep p (r ∷ rs) u = elim (Bool-cases (p r)) [
  | inl e ↦ rw e (All-keep _ p rs u.0, Unique-keep p rs u.1)
  | inr e ↦ rw e (Unique-keep p rs u.1)
]

-- A row clashes with no other row of a table that meets the constraint.
pub others :
    (m : Message) (rs : List Message)
    → Unique rs
    → In m rs
    → All (λ r. (r ≡ m) ⊎ ((clash m r ≡ false) ⊎ (clash r m ≡ false))) rs
others m [] u i = elim i [ ]
others m (r ∷ rs) u (here e) =
    (inl (sym e), All-imp _ _ rs (λ s c. inr (inl (subst (λ x. clash x s ≡ false) (sym e) c))) u.0)
others m (r ∷ rs) u (there i) = (inr (inr (All-In _ m rs i u.0)), others m rs u.1 i)

-- The calls that a stored result of a charge point can belong to are the central system's.
call_is_central :
    (m r : Message)
    → m.actor ≡ charge_point
    → m.message_type ≡ call_result
    → is_call_of m r ≡ true
    → (r ≡ m) ⊎ ((clash m r ≡ false) ⊎ (clash r m ≡ false))
    → r.actor ≡ central_system
unfolding is_call_of clash same_message_type
call_is_central m r from is_result is_call (inl e) =
    ground (arith, ap (λ (x : Message). x.message_type) e)
call_is_central m r from is_result is_call (inr (inl c)) =
    ground (arith, eq_iff r.unique_key m.unique_key, eq_iff m.unique_key r.unique_key)
call_is_central m r from is_result is_call (inr (inr c)) =
    ground (arith, eq_iff r.unique_key m.unique_key, eq_iff m.unique_key r.unique_key)

-- Two calls of one key by one actor clash.
pub two_calls_clash :
    (m r s : Message)
    → is_call_of m r ≡ true
    → is_call_of m s ≡ true
    → r.actor ≡ central_system
    → s.actor ≡ central_system
    → clash r s ≡ true
unfolding is_call_of clash same_message_type same_actor
two_calls_clash m r s cr cs ar as_ = ground (
  arith,
  eq_iff r.unique_key m.unique_key,
  eq_iff s.unique_key m.unique_key,
  eq_iff r.unique_key s.unique_key,
)

-- What `get` may come to: the row that was asked for, or none.
abbrev pub AtMostOne : Message → Result Message → Type 0
AtMostOne m (ok r) = (r.actor ≡ central_system) × (is_call_of m r ≡ true)
AtMostOne m (err e) = e ≡ does_not_exist

only-AtMostOne :
    (m : Message) (rs : List Message)
    → Unique rs
    → All (λ r. is_call_of m r ≡ true) rs
    → All (λ r. r.actor ≡ central_system) rs
    → AtMostOne m (the_only rs)
only-AtMostOne m [] u calls central = refl
only-AtMostOne m (r ∷ []) u calls central = (central.0, calls.0)
only-AtMostOne m (r ∷ s ∷ rs) u calls central =
    absurd (false≢true (sym u.0.0 ∙ two_calls_clash m r s calls.0 calls.1.0 central.0 central.1.0))

-- Both facts of the rows that match.
pub centrals :
    (m : Message) (rs : List Message)
    → m.actor ≡ charge_point
    → m.message_type ≡ call_result
    → All (λ r. (r ≡ m) ⊎ ((clash m r ≡ false) ⊎ (clash r m ≡ false))) rs
    → All (λ r. is_call_of m r ≡ true) rs
    → All (λ r. r.actor ≡ central_system) rs
centrals m [] from is_result away calls = tt
centrals m (r ∷ rs) from is_result away calls =
    (call_is_central m r from is_result calls.0 away.0, centrals m rs from is_result away.1 calls.1)

module _ ⦃p : Platform⦄ where
  -- For a stored result of a charge point, in a table that meets the unique constraint, the look-up
  -- of its originating call finds a call of the central system with that unique id, or raises
  -- DoesNotExist; it never finds two, and never takes a call that a charge point made.
  pub originating_call-AtMostOne :
      (m : Message) (rows : List Message)
      → Unique rows
      → In m rows
      → m.actor ≡ charge_point
      → m.message_type ≡ call_result
      → AtMostOne m (p.message_table.get (is_call_of m) rows)
  originating_call-AtMostOne m rows u i from is_result =
      let found = keep (is_call_of m) rows in
      let calls = keep-All (is_call_of m) rows in
      let away = All-keep _ (is_call_of m) rows (others m rows u i) in
      rw (p.message_table.get_lem (is_call_of m) rows) (
        only-AtMostOne m found (Unique-keep (is_call_of m) rows u) calls
          (centrals m found from is_result away calls))
