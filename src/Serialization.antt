-- ===== src/Serialization.antt =====
-- be/ocpp/utils/serialization.py. A JSON text stands as the value that `json.loads` reads from it,
-- so encoding replaces what JSON lacks: an enum member by its value, a datetime by its ISO text.
use levity.Prelude.{◌≡◌, refl, ap}
use levity.Platform.{Platform}
use levity.Value.{
  Value, null, bool, num, str, arr, obj, enum_member, datetime, Items, nil, cons, Fields, end,
  field,
}

module _ ⦃p : Platform⦄ where
  unfoldable mutual
    -- `json_encode`
    pub json_encode : Value → Value
    json_encode null = null
    json_encode (bool b) = bool b
    json_encode (num m s) = num m s
    json_encode (str t) = str t
    json_encode (arr xs) = arr (encode_items xs)
    json_encode (obj fs) = obj (encode_fields fs)
    json_encode (enum_member v) = json_encode v
    json_encode (datetime t) = str (p.isoformat t)

    pub encode_items : Items → Items
    encode_items nil = nil
    encode_items (cons x xs) = cons (json_encode x) (encode_items xs)

    pub encode_fields : Fields → Fields
    encode_fields end = end
    encode_fields (field k v fs) = field k (json_encode v) (encode_fields fs)

  mutual
    unfolding json_encode encode_items encode_fields

    encode_again : (v : Value) → json_encode (json_encode v) ≡ json_encode v
    encode_again null = refl
    encode_again (bool b) = refl
    encode_again (num m s) = refl
    encode_again (str t) = refl
    encode_again (arr xs) = ap arr (encode_items_again xs)
    encode_again (obj fs) = ap obj (encode_fields_again fs)
    encode_again (enum_member v) = encode_again v
    encode_again (datetime t) = refl

    encode_items_again : (xs : Items) → encode_items (encode_items xs) ≡ encode_items xs
    encode_items_again nil = refl
    encode_items_again (cons x xs) = λ i. cons (encode_again x i) (encode_items_again xs i)

    encode_fields_again : (fs : Fields) → encode_fields (encode_fields fs) ≡ encode_fields fs
    encode_fields_again end = refl
    encode_fields_again (field k v fs) = λ i. field k (encode_again v i) (encode_fields_again fs i)

  -- What was encoded once is plain JSON: encoding it again changes nothing.
  pub json_encode-json_encode : (v : Value) → json_encode (json_encode v) ≡ json_encode v
  json_encode-json_encode v = encode_again v
