-- ===== src/Memory/Tables.antt =====
-- Tables as lists, with the laws of Table and KeyedTable.
use levity.Prelude.{
  ℕ, suc, ◌≤◌, String, ◌≡◌, refl, Bool, true, false, Option, none, some, List, [], ◌∷◌, ◌++◌, map,
  any, keep, find, All, In, here, there, ◌==◌, ==_iff, str_eq, ltb, if◌then◌else◌, Bool-cases, inl,
  inr, arith, sym, ap, ◌∙◌, All-imp,
}
use Prim.Native.Nat.{max}
use mathlib.Core.Bool.{false≢true}
use mathlib.Core.Path.{subst}
use native.Mathlib.Nat.{le_of_eq}
use levity.Platform.Tables.{Table, KeyedTable, the_only}

module _ {ℓ} {Row : Type ℓ} where
  unfoldable pub next_key : (Row → ℕ) → List Row → ℕ
  next_key pk [] = 1
  next_key pk (r ∷ rs) = max (suc (pk r)) (next_key pk rs)

  above-next_key :
      (pk : Row → ℕ) (n : ℕ) (rs : List Row) → next_key pk rs ≤ n → any (λ r. pk r == n) rs ≡ false
  unfolding next_key
  above-next_key pk n [] h = refl
  above-next_key pk n (r ∷ rs) h =
      ground (arith, above-next_key pk n rs (omega arith), ==_iff (pk r) n)

  pub next_key_fresh : (pk : Row → ℕ) (rs : List Row) → any (λ r. pk r == next_key pk rs) rs ≡ false
  next_key_fresh pk rs = above-next_key pk (next_key pk rs) rs (omega arith)

  later : (Row → ℕ) → Row → Option Row → Row
  later f x none = x
  later f x (some y) = if ltb (f y) (f x) then x else y

  unfoldable pub latest : (Row → ℕ) → (Row → Bool) → List Row → Option Row
  unfolding later
  latest f p [] = none
  latest f p (x ∷ xs) = let rest = latest f p xs in if p x then some (later f x rest) else rest

  pub latest-none :
      (f : Row → ℕ) (p : Row → Bool) (rs : List Row)
      → latest f p rs ≡ none
      → All (λ r. p r ≡ false) rs
  unfolding latest
  latest-none f p [] h = tt
  latest-none f p (x ∷ xs) h = ground (arith, latest-none f p xs)

  abbrev pub Latest : (Row → ℕ) → (Row → Bool) → List Row → Row → Type ℓ
  Latest f p rs r = In r rs × (p r ≡ true) × All (λ s. p s ≡ true → f s ≤ f r) rs

  -- The head against the latest of the rest.
  Latest-head :
      (f : Row → ℕ) (p : Row → Bool) (x : Row) (xs : List Row) (o : Option Row) (r : Row)
      → p x ≡ true
      → (o ≡ none → All (λ s. p s ≡ false) xs)
      → ((y : Row) → o ≡ some y → Latest f p xs y)
      → later f x o ≡ r
      → Latest f p (x ∷ xs) r
  unfolding later
  Latest-head f p x xs none r e empty best h = (
    here (sym h),
    ap p (sym h) ∙ e,
    (
      λ t. le_of_eq (ap f h),
      All-imp _ _ xs (λ s no yes_. absurd (false≢true (sym no ∙ yes_))) (empty refl),
    ),
  )
  Latest-head f p x xs (some y) r e empty best h =
      let (i, q, a) = best y refl in
      elim (Bool-cases (ltb (f y) (f x))) [
        | inl lt ↦
            let d : x ≡ r = rw lt at h in
            (
              here (sym d),
              ap p (sym d) ∙ e,
              (
                λ t. le_of_eq (ap f d),
                All-imp _ _ xs (λ s le t. subst (λ z. f s ≤ f z) d (below s lt (le t))) a,
              ),
            )
        | inr ge ↦
            let d : y ≡ r = rw ge at h in
            (
              there (subst (λ z. In z xs) d i),
              ap p (sym d) ∙ q,
              (
                λ t. subst (λ z. f x ≤ f z) d (not_below ge),
                All-imp _ _ xs (λ s le t. subst (λ z. f s ≤ f z) d (le t)) a,
              ),
            )
      ]
    where
      below : (s : Row) → ltb (f y) (f x) ≡ true → f s ≤ f y → f s ≤ f x
      below s lt le = ground arith

      not_below : ltb (f y) (f x) ≡ false → f x ≤ f y
      not_below ge = ground arith

  of_some : (a b : Row) → some a ≡ some b → a ≡ b
  of_some a b h = cc

  pub latest-some :
      (f : Row → ℕ) (p : Row → Bool) (rs : List Row) (r : Row)
      → latest f p rs ≡ some r
      → Latest f p rs r
  unfolding latest
  latest-some f p [] r h = cc
  latest-some f p (x ∷ xs) r h = elim (Bool-cases (p x)) [
    | inl e ↦
        Latest-head f p x xs (latest f p xs) r e (latest-none f p xs) (latest-some f p xs)
          (of_some _ _ (rw e at h))
    | inr e ↦
        let (i, q, a) = latest-some f p xs r (rw e at h) in
        (there i, q, ((λ (t : p x ≡ true). absurd (false≢true (sym e ∙ t))), a))
  ]

  In-cons {κ} :
      {C : Type κ} (r x : Row) (xs : List Row) → In r (x ∷ xs) → (r ≡ x → C) → (In r xs → C) → C
  In-cons r x xs (here e) f g = f e
  In-cons r x xs (there i) f g = g i

  pub keep-In :
      (p : Row → Bool) (r : Row) (rs : List Row) → In r (keep p rs) → In r rs × (p r ≡ true)
  keep-In p r [] i = elim i [ ]
  keep-In p r (x ∷ xs) i = elim (Bool-cases (p x)) [
    | inl e ↦
        In-cons r x (keep p xs) (rw e at i) (λ d. (here d, ap p d ∙ e))
          (λ j. let (k, q) = keep-In p r xs j in (there k, q))
    | inr e ↦ let (k, q) = keep-In p r xs (rw e at i) in (there k, q)
  ]

  pub In-keep : (p : Row → Bool) (r : Row) (rs : List Row) → In r rs → p r ≡ true → In r (keep p rs)
  In-keep p r [] i h = elim i [ ]
  In-keep p r (x ∷ xs) (here e) h = rw (ap p (sym e) ∙ h) (here e)
  In-keep p r (x ∷ xs) (there i) h = elim (Bool-cases (p x)) [
    | inl e ↦ rw e (there (In-keep p r xs i h))
    | inr e ↦ rw e (In-keep p r xs i h)
  ]

module _ {Row : Type 0} (pk : Row → ℕ) (with_pk : ℕ → Row → Row) (clash : Row → Row → Bool) where
  abbrev pub table : Table Row pk with_pk clash
  table = record {
    next = next_key pk;
    create = λ r rows.
        if any (clash r) rows
        then none
        else some (with_pk (next_key pk rows) r, rows ++ with_pk (next_key pk rows) r ∷ []);
    save = λ k f rows. map (λ r. if pk r == k then f r else r) rows;
    filter = keep;
    get = λ p rows. the_only (keep p rows);
    last_by = latest;
    next_fresh = next_key_fresh pk;
    create_lem = λ r rows. refl;
    save_lem = λ k f rows. refl;
    filter_lem = λ p r rows. (keep-In p r rows, λ h. In-keep p r rows h.0 h.1);
    get_lem = λ p rows. refl;
    last_by_none = latest-none;
    last_by_some = latest-some;
  }

module _ {Row : Type 0} (pk : Row → String) where
  upserted : (Row → Row) → Row → String → List Row → Option Row → Row × List Row
  upserted f new k rows none = (new, rows ++ new ∷ [])
  upserted f new k rows (some r) = (f r, map (λ s. if str_eq (pk s) k then f s else s) rows)

  unfoldable pub upsert : String → (Row → Row) → Row → List Row → Row × List Row
  unfolding upserted
  upsert k f new rows = upserted f new k rows (find (λ r. str_eq (pk r) k) rows)

  pub upsert_new :
      (k : String) (f : Row → Row) (new : Row) (rows : List Row)
      → find (λ r. str_eq (pk r) k) rows ≡ none
      → upsert k f new rows ≡ (new, rows ++ new ∷ [])
  unfolding upsert
  upsert_new k f new rows h = rw h

  pub upsert_old :
      (k : String) (f : Row → Row) (new r : Row) (rows : List Row)
      → find (λ s. str_eq (pk s) k) rows ≡ some r
      → upsert k f new rows ≡ (f r, map (λ s. if str_eq (pk s) k then f s else s) rows)
  unfolding upsert
  upsert_old k f new r rows h = rw h

  abbrev pub keyed_table : KeyedTable Row pk
  keyed_table = record {
    update_or_create = upsert;
    save = λ k f rows. map (λ r. if str_eq (pk r) k then f r else r) rows;
    save_lem = λ k f rows. refl;
    update_or_create_new = upsert_new;
    update_or_create_old = upsert_old;
  }
