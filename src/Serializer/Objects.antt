-- ===== src/Serializer/Objects.antt =====
-- Values that are no properties, through the two templates of the machine.
use treeipc.Base.{◌≡◌, refl, ap, some, ltb, lt→ltb, ==_refl}
use treeipc.Types.{TypeNames, QtText, size_of}
use treeipc.Serializer.{
  Value, object, text, bytes, init, serialize_value, deserialize_value, serialize_object,
  deserialize_object,
}
use treeipc.Serializer.Registry.{lookup-init, serializer_of}
use treeipc.Serializer.RoundTrip.{type_of, IsSound, wire, plain-serializer, memcpy_whole, c_str-All}

module _ (names : TypeNames) (qt : QtText) where
  open names use {name}
  open qt use {to_std_string, of_c_str}

  serialize_object-wire :
      (v : Value qt)
      → IsSound names qt v
      → serialize_object qt (serializer_of (type_of names qt v)) v ≡ some (wire names qt v)
  unfolding serialize_object
  serialize_object-wire (object t mem) h =
      rw (plain-serializer t h.0, ==_refl) (ap some (memcpy_whole (size_of t) mem h.1))
  serialize_object-wire (text q) h = refl
  serialize_object-wire (bytes b) h = refl

  deserialize_object-wire :
      (v w : Value qt)
      → IsSound names qt v
      → deserialize_object qt (serializer_of (type_of names qt v)) (wire names qt v) (some w)
        ≡ (some v, ltb 0 (size_of (type_of names qt v)))
  unfolding deserialize_object
  deserialize_object-wire (object t mem) w h =
      rw (plain-serializer t h.0, h.1, ==_refl, lt→ltb 0 (size_of t) h.0) refl
  deserialize_object-wire (text q) w h =
      rw (c_str-All (to_std_string q) h, qt.of_c_str-to_std_string q) refl
  deserialize_object-wire (bytes b) w h = refl

  -- A value of any of the types, whose text is free of NUL characters, that is serialized on one side is what
  -- an object of its type holds after `deserialize` on the other, whatever it held; the result that
  -- `deserialize` returns with it is true for the types that are copied as they lie in memory only.
  pub deserialize_value-serialize_value :
      (v w : Value qt)
      → IsSound names qt v
      → let t = name (type_of names qt v) in
        (serialize_value qt (init names) t v ≡ some (wire names qt v))
        × (deserialize_value qt (init names) t (wire names qt v) w
            ≡ (some v, ltb 0 (size_of (type_of names qt v))))
  unfolding serialize_value deserialize_value
  deserialize_value-serialize_value v w h = (
    rw (lookup-init names (type_of names qt v)) (serialize_object-wire v h),
    rw (lookup-init names (type_of names qt v)) (deserialize_object-wire v w h),
  )
