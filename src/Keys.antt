-- ===== src/Keys.antt =====
-- The unique constraint and the keys of the messages' table, be/ocpp/models/message.py.
pub mod Writing
pub mod Calls
pub mod Chains
pub mod Delivering
use levity.Prelude.{
  ℕ, ◌≡◌, refl, sym, ap, subst, ◌∙◌, Bool, true, false, List, [], ◌∷◌, ◌++◌, All, All-In, In, here,
  there, any, any-All, map, Bool-cases, inl, inr, if◌then◌else◌, ◌==◌, ◌&&◌, str_eq, eq_iff, arith,
}
use levity.Models.Rows.{Message, clash, same_actor}
use levity.Models.World.{World}
use levity.Services.ResultHandler.Originating.{Unique}

-- Two rows with other keys that may stand in one table.
abbrev pub Differ : Message → Message → Type 0
Differ r s = (clash r s ≡ false) × ((r.id == s.id) ≡ false)

abbrev pub Apart : List Message → Type 0
Apart [] = Unit
Apart (r ∷ rs) = All (Differ r) rs × Apart rs

-- The columns of the key and of the unique constraint.
abbrev pub SameColumns : Message → Message → Type 0
SameColumns m r = (r.id ≡ m.id) × (r.actor ≡ m.actor) × (r.unique_key ≡ m.unique_key)

-- The object has a row.
abbrev pub IsStored : List Message → Message → Type 0
IsStored rows m = (r : Message) × In r rows × SameColumns m r

-- The table is sound, and these objects have rows.
abbrev pub Kept : List Message → World → Type 0
Kept ms w = Apart w.messages × All (IsStored w.messages) ms

pub Apart-Unique : (rows : List Message) → Apart rows → Unique rows
Apart-Unique [] apart = tt
Apart-Unique (r ∷ rs) apart = (unclashed rs apart.0, Apart-Unique rs apart.1)
  where
    unclashed : (ss : List Message) → All (Differ r) ss → All (λ s. clash r s ≡ false) ss
    unclashed [] all = tt
    unclashed (s ∷ ss) all = (all.0.0, unclashed ss all.1)

-- A new row comes last.
clash_comm : (r s : Message) → clash r s ≡ false → clash s r ≡ false
unfolding clash same_actor
clash_comm r s apart =
    ground (arith, apart, eq_iff r.unique_key s.unique_key, eq_iff s.unique_key r.unique_key)

differs-snoc :
    (r new : Message) (rs : List Message)
    → All (Differ r) rs
    → Differ r new
    → All (Differ r) (rs ++ new ∷ [])
differs-snoc r new [] all last = (last, tt)
differs-snoc r new (s ∷ rs) all last = (all.0, differs-snoc r new rs all.1 last)

pub Apart-snoc :
    (new : Message) (rows : List Message)
    → Apart rows
    → All (λ r. clash new r ≡ false) rows
    → All (λ r. (r.id == new.id) ≡ false) rows
    → Apart (rows ++ new ∷ [])
Apart-snoc new [] apart free fresh = (tt, tt)
Apart-snoc new (r ∷ rows) apart free fresh = (
  differs-snoc r new rows apart.0 (clash_comm new r free.0, fresh.0),
  Apart-snoc new rows apart.1 free.1 fresh.1,
)

In-append : {A : Type 0} (a : A) (xs ys : List A) → In a xs → In a (xs ++ ys)
In-append a [] ys i = elim i [ ]
In-append a (x ∷ xs) ys (here e) = here e
In-append a (x ∷ xs) ys (there i) = there (In-append a xs ys i)

pub In-last : {A : Type 0} (a : A) (xs : List A) → In a (xs ++ a ∷ [])
In-last a [] = here refl
In-last a (x ∷ xs) = there (In-last a xs)

pub IsStored-more :
    (new : Message) (rows ms : List Message)
    → All (IsStored rows) ms
    → All (IsStored (rows ++ new ∷ [])) ms
IsStored-more new rows [] all = tt
IsStored-more new rows (m ∷ ms) ((r, at, same), all) =
    ((r, In-append r rows (new ∷ []) at, same), IsStored-more new rows ms all)

-- Rows with the key of a stored object are its row.
pub stored-only :
    (r : Message) (rows : List Message)
    → Apart rows
    → In r rows
    → All (λ s. (s.id == r.id) ≡ true → SameColumns r s) rows
stored-only r [] apart i = tt
stored-only r (s ∷ rows) apart (here e) =
    ((λ same. subst (λ t. SameColumns r t) e (refl, refl, refl)), others rows apart.0)
  where
    others :
        (ts : List Message)
        → All (Differ s) ts
        → All (λ t. (t.id == r.id) ≡ true → SameColumns r t) ts
    others [] all = tt
    others (t ∷ ts) all = (
      (λ same. absurd (ground (arith, same, all.0.1, ap (λ (x : Message). x.id) e))),
      others ts all.1,
    )
stored-only r (s ∷ rows) apart (there i) = (
  (λ same. absurd (ground (arith, same, (All-In (Differ s) r rows i apart.0).1))),
  stored-only r rows apart.1 i,
)
