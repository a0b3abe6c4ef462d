-- ===== src/Value.antt =====
-- Python values as the backend holds them: what `json.loads` returns, and beside those the enum
-- members and datetimes that handlers put into a response before it is made serializable
-- (be/ocpp/utils/serialization.py). A number is a decimal: `num m s` is m / 10 ^ s.

use levity.Prelude.{
  ℕ, zero, ◌*◌, ◌^◌, String, Bool, true, false, Option, none, some, ℤ, pos, ◌==◌, str_eq,
  if◌then◌else◌,
}

mutual
  pub data Value : Type 0 where
    null : Value
    bool : Bool → Value
    num : ℤ → ℕ → Value
    str : String → Value
    arr : Items → Value
    obj : Fields → Value
    enum_member : Value → Value
    datetime : ℕ → Value

  pub data Items : Type 0 where
    nil : Items
    cons : Value → Items → Items

  pub data Fields : Type 0 where
    end : Fields
    field : String → Value → Fields → Fields

-- Python's truth test on a value, as `or` and `if` make it.
unfoldable pub truthy : Value → Bool
truthy null = false
truthy (bool b) = b
truthy (num (pos zero) s) = false
truthy (num m s) = true
truthy (str t) = if str_eq t "" then false else true
truthy (arr nil) = false
truthy (arr xs) = true
truthy (obj end) = false
truthy (obj fs) = true
truthy (enum_member v) = true
truthy (datetime t) = true

-- `a or b`
unfoldable pub or_else : Value → Value → Value
unfolding truthy
or_else a b = if truthy a then a else b

-- Whether a value equals the whole number `n`; `2`, `2.0` and `20e-1` are equal.
unfoldable pub is_number : ℕ → Value → Bool
is_number n (num (pos m) s) = m == n * 10 ^ s
is_number n v = false

unfoldable pub lookup : String → Fields → Option Value
lookup k end = none
lookup k (field j v fs) = let rest = lookup k fs in if str_eq j k then some v else rest

-- `d[k] = v`: in place, or at the end.
unfoldable pub insert : String → Value → Fields → Fields
insert k v end = field k v end
insert k v (field j w fs) =
    let rest = insert k v fs in if str_eq j k then field j v fs else field j w rest

-- `d.update(e)`
unfoldable pub merge : Fields → Fields → Fields
unfolding insert
merge d end = d
merge d (field k v e) = merge (insert k v d) e

abbrev pub entry : String → Value → Fields
entry k v = field k v end
