-- ===== src/Serializer/Tests.antt =====
-- An int and two texts through the default serializers.
use treeipc.Base.{
  ◌≡◌, refl, [], ◌∷◌, some, false, arith, lookup, insert, bytes_eq, overwrite, resize,
}
use treeipc.Types.{int, qstring}
use treeipc.Types.Samples.{byte_names, utf_eight}
use treeipc.Serializer.{
  Value, object, text, set_value, serialize_value, deserialize_value, init, serialize, deserialize,
  add_serializer, add_plain_serializer, serialize_property,
}
use treeipc.Serializer.Objects.{deserialize_value-serialize_value}
use treeipc.Serializer.RoundTrip.{property, deserialize-serialize}

abbrev seven : Value utf_eight
seven = object int (7 ∷ 0 ∷ 0 ∷ 0 ∷ [])

abbrev five : Value utf_eight
five = object int (5 ∷ 0 ∷ 0 ∷ 0 ∷ [])

int_bytes :
    serialize utf_eight (init byte_names) (property byte_names utf_eight seven) ≡ 7 ∷ 0 ∷ 0 ∷ 0 ∷ []
unfolding serialize lookup init add_serializer insert add_plain_serializer bytes_eq
    serialize_property overwrite resize
int_bytes = refl

deserialize-serialize_example :
    deserialize utf_eight
      (init byte_names)
      (serialize utf_eight (init byte_names) (property byte_names utf_eight seven))
      (property byte_names utf_eight five)
    ≡ some (set_value seven)
deserialize-serialize_example =
    deserialize-serialize byte_names utf_eight seven five (omega arith, refl) (omega arith, refl)
      refl

abbrev greeting : Value utf_eight
greeting = text (104 ∷ 105 ∷ [])

deserialize_value-serialize_value_example :
    let t = byte_names.name qstring in
    (serialize_value utf_eight (init byte_names) t greeting ≡ some (104 ∷ 105 ∷ []))
    × (deserialize_value utf_eight (init byte_names) t (104 ∷ 105 ∷ []) (text [])
        ≡ (some greeting, false))
deserialize_value-serialize_value_example =
    deserialize_value-serialize_value byte_names utf_eight greeting (text [])
      (omega arith, (omega arith, tt))
