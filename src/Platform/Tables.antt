-- ===== src/Platform/Tables.antt =====
-- A table as the code sees it through `Model.objects`. A query without `order_by` returns its rows
-- in an order of the database's choosing, so the order of a table's list has no meaning.
use levity.Prelude.{
  ℕ, ◌≤◌, String, ◌≡◌, ◌↔◌, Bool, true, false, Option, none, some, List, [], ◌∷◌, ◌++◌, map, any,
  keep, find, All, In, ◌==◌, str_eq, if◌then◌else◌,
}
use levity.Types.Error.{Result, ok, err, does_not_exist, multiple_objects_returned}

-- What `get` makes of the rows that match.
abbrev pub the_only {ℓ} : {Row : Type ℓ} → List Row → Result Row
the_only [] = err does_not_exist
the_only (r ∷ []) = ok r
the_only (r ∷ s ∷ rs) = err multiple_objects_returned

-- A table whose keys the database allots. `clash` is its unique constraint.
pub record Table (Row : Type 0) (pk : Row → ℕ) (with_pk : ℕ → Row → Row) (clash : Row → Row → Bool)
    : Type 0 where
  -- the key of the next row
  pub next : List Row → ℕ
  -- `objects.create(…)`: the object and the table, or `none` for IntegrityError
  pub create : Row → List Row → Option (Row × List Row)
  -- `object.save(update_fields=…)`, by the object's key and the assignments
  pub save : ℕ → (Row → Row) → List Row → List Row
  -- `objects.filter(…)` and `objects.get(…)`
  pub filter : (Row → Bool) → List Row → List Row
  pub get : (Row → Bool) → List Row → Result Row
  -- `objects.filter(…).order_by(column).last()`
  pub last_by : (Row → ℕ) → (Row → Bool) → List Row → Option Row
  pub next_fresh : (rows : List Row) → any (λ r. pk r == next rows) rows ≡ false
  pub create_lem :
      (r : Row) (rows : List Row)
      → create r rows ≡ (
          if any (clash r) rows
          then none
          else some (with_pk (next rows) r, rows ++ with_pk (next rows) r ∷ []))
  pub save_lem :
      (k : ℕ) (f : Row → Row) (rows : List Row)
      → save k f rows ≡ map (λ r. if pk r == k then f r else r) rows
  pub filter_lem :
      (p : Row → Bool) (r : Row) (rows : List Row)
      → In r (filter p rows) ↔ (In r rows × (p r ≡ true))
  pub get_lem : (p : Row → Bool) (rows : List Row) → get p rows ≡ the_only (keep p rows)
  pub last_by_none :
      (f : Row → ℕ) (p : Row → Bool) (rows : List Row)
      → last_by f p rows ≡ none
      → All (λ r. p r ≡ false) rows
  pub last_by_some :
      (f : Row → ℕ) (p : Row → Bool) (rows : List Row) (r : Row)
      → last_by f p rows ≡ some r
      → In r rows × (p r ≡ true) × All (λ s. p s ≡ true → f s ≤ f r) rows

-- A table whose keys the program gives.
pub record KeyedTable (Row : Type 0) (pk : Row → String) : Type 0 where
  -- `objects.update_or_create(id=…, defaults=…)`: the assignments, and the row with the defaults
  pub update_or_create : String → (Row → Row) → Row → List Row → Row × List Row
  pub save : String → (Row → Row) → List Row → List Row
  pub save_lem :
      (k : String) (f : Row → Row) (rows : List Row)
      → save k f rows ≡ map (λ r. if str_eq (pk r) k then f r else r) rows
  pub update_or_create_new :
      (k : String) (f : Row → Row) (new : Row) (rows : List Row)
      → find (λ r. str_eq (pk r) k) rows ≡ none
      → update_or_create k f new rows ≡ (new, rows ++ new ∷ [])
  pub update_or_create_old :
      (k : String) (f : Row → Row) (new r : Row) (rows : List Row)
      → find (λ s. str_eq (pk s) k) rows ≡ some r
      → update_or_create k f new rows ≡ (f r, map (λ s. if str_eq (pk s) k then f s else s) rows)
