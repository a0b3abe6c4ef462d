-- ===== src/Dict.antt =====
-- Reading Python values: subscripts, `get` and `update`, with the exceptions that they raise.
use levity.Prelude.{String, Option, none, some}
use levity.Types.Error.{Result, ok, err, key_error, index_error, type_error, attribute_error}
use levity.Value.{Value, str, arr, obj, Items, nil, cons, Fields, end, field, lookup, merge}

abbrev or_key_error : Option Value → Result Value
or_key_error (some v) = ok v
or_key_error none = err key_error

-- `v[k]` for a text `k`
unfoldable pub subscript : Value → String → Result Value
unfolding lookup
subscript (obj fs) k = or_key_error (lookup k fs)
subscript v k = err type_error

abbrev pub or_default : Value → Option Value → Value
or_default d (some v) = v
or_default d none = d

-- `v.get(k, d)`
unfoldable pub get : Value → String → Value → Result Value
unfolding lookup
get (obj fs) k d = ok (or_default d (lookup k fs))
get v k d = err attribute_error

-- `v.update(e)`
unfoldable pub update : Value → Fields → Result Value
unfolding merge
update (obj fs) e = ok (obj (merge fs e))
update v e = err attribute_error

-- `v[0]`
unfoldable pub first : Value → Result Value
first (arr (cons v vs)) = ok v
first (arr nil) = err index_error
first (str (String.◌∷◌ c t)) = ok (str (String.◌∷◌ c String.[]))
first (str String.[]) = err index_error
first (obj fs) = err key_error
first v = err type_error

unfoldable pub characters : String → Items
characters String.[] = nil
characters (String.◌∷◌ c t) = cons (str (String.◌∷◌ c String.[])) (characters t)

unfoldable pub keys : Fields → Items
keys end = nil
keys (field k v fs) = cons (str k) (keys fs)

-- What `for x in v` visits.
unfoldable pub elements : Value → Result Items
unfolding characters keys
elements (arr xs) = ok xs
elements (str t) = ok (characters t)
elements (obj fs) = ok (keys fs)
elements v = err type_error
