-- ===== src/Types/ModelEnum.antt =====
-- be/ocpp/utils/model/model_enum.py: an enumeration whose members carry texts. Calling the class
-- with a value finds the member of that value, or raises ValueError.
use levity.Prelude.{String, List, map, Option, none, some, find, str_eq}
use levity.Types.Error.{Result, ok, err, value_error}
use levity.Value.{Value, str}

module _ {ℓ} {A : Type ℓ} (value : A → String) where
  -- `[(i.value, i.value) for i in cls]`
  unfoldable pub choices : List A → List (String × String)
  choices members = map (λ a. (value a, value a)) members

  abbrev pub or_value_error : Option A → Result A
  or_value_error (some a) = ok a
  or_value_error none = err value_error

  -- `cls(text)`
  unfoldable pub of_text : List A → String → Result A
  of_text members t = or_value_error (find (λ a. str_eq (value a) t) members)

  -- `cls(v)`: no member equals a value that is not a text.
  unfoldable pub of_value : List A → Value → Result A
  unfolding of_text
  of_value members (str t) = of_text members t
  of_value members v = err value_error
