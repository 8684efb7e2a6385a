-- ===== src/Serializer/RoundTrip.antt =====
-- A value through `serialize` on one side and `deserialize` on the other.
use treeipc.Base.{
  ℕ, ◌<◌, ◌≡◌, ◌≢◌, refl, ap, ◌∙◌, List, [], ◌∷◌, ◌++◌, length, resize, overwrite, All, false,
  Option, none, some, arith, overwrite-zero, drop_all, length-resize, append-nil, ==_refl, ne→==,
}
use treeipc.Types.{
  TypeId, double, float, int, bool, qstring, qbytearray, TypeNames, QtText, c_str, size_of,
}
use treeipc.Serializer.{
  plain, for_qstring, for_qbytearray, Value, object, text, bytes, Property, Store, set_value,
  sync_value, init, serialize, deserialize, serialize_property, deserialize_property,
  deserialize_object, get_size,
}
use treeipc.Serializer.Registry.{lookup-init, serializer_of}

pub c_str-All : (bs : List ℕ) → All (λ b. b ≢ 0) bs → c_str bs ≡ bs
unfolding c_str
c_str-All [] h = refl
c_str-All (b ∷ bs) h = ground (arith, c_str-All bs h.1)

pub c_str-append : (bs cs : List ℕ) → All (λ b. b ≢ 0) bs → c_str (bs ++ (0 ∷ cs)) ≡ bs
unfolding c_str
c_str-append [] cs h = refl
c_str-append (b ∷ bs) cs h = ground (arith, c_str-append bs cs h.1)

-- The types that are copied as they lie in memory.
abbrev pub IsPlain : TypeId → Type 0
IsPlain t = 0 < size_of t

pub plain-serializer : (t : TypeId) → IsPlain t → serializer_of t ≡ plain t
plain-serializer double h = refl
plain-serializer float h = refl
plain-serializer int h = refl
plain-serializer bool h = refl
plain-serializer qstring h = absurd (omega arith)
plain-serializer qbytearray h = absurd (omega arith)

pub memcpy_whole : (n : ℕ) (mem : List ℕ) → length mem ≡ n → overwrite 0 mem (resize n 0 []) ≡ mem
memcpy_whole n mem e =
    overwrite-zero mem (resize n 0 []) (omega (arith, length-resize {0} n (let z : ℕ = 0 in z) []))
    ∙ ap (◌++◌ mem) (
        drop_all (length mem) (resize n 0 [])
          (omega (arith, length-resize {0} n (let z : ℕ = 0 in z) [])))
    ∙ append-nil mem

module _ (names : TypeNames) (qt : QtText) where
  open names use {name}
  open qt use {QString, to_std_string, of_c_str}

  abbrev pub type_of : Value qt → TypeId
  type_of (object t mem) = t
  type_of (text q) = qstring
  type_of (bytes b) = qbytearray

  -- A property of a value's type, as the program's are: it names the type of its value.
  abbrev pub property : Value qt → Property qt
  property v = record { type = name (type_of v); value = v }

  -- A value as it can lie in memory.
  abbrev pub IsValue : Value qt → Type 0
  IsValue (object t mem) = IsPlain t × (length mem ≡ size_of t)
  IsValue (text q) = Unit
  IsValue (bytes b) = Unit

  -- A value as it can lie in memory, whose text survives a C string.
  abbrev pub IsSound : Value qt → Type 0
  IsSound (object t mem) = IsPlain t × (length mem ≡ size_of t)
  IsSound (text q) = All (λ b. b ≢ 0) (to_std_string q)
  IsSound (bytes b) = Unit

  -- How the value's serializer stores it.
  abbrev pub store : Value qt → Store qt
  store (object t mem) = set_value (object t mem)
  store (text q) = sync_value (text q)
  store (bytes b) = sync_value (bytes b)

  abbrev pub wire : Value qt → List ℕ
  wire (object t mem) = mem
  wire (text q) = to_std_string q
  wire (bytes b) = b

  pub serialize_lem : (v : Value qt) → IsSound v → serialize qt (init names) (property v) ≡ wire v
  unfolding serialize serialize_property
  serialize_lem (object t mem) h =
      rw (lookup-init names t, plain-serializer t h.0, ==_refl) (memcpy_whole (size_of t) mem h.1)
  serialize_lem (text q) h = rw (lookup-init names qstring) refl
  serialize_lem (bytes b) h = rw (lookup-init names qbytearray) refl

  deserialize_property-wire :
      (v w : Value qt)
      → IsSound v
      → IsValue w
      → type_of w ≡ type_of v
      → deserialize_property qt (serializer_of (type_of v)) (wire v) w ≡ some (store v)
  unfolding deserialize_property
  deserialize_property-wire (object t mem) (object u m) h k e =
      rw (plain-serializer t h.0)
        (rw (e, h.1, ==_refl, ==_refl) (ap (λ k. some (set_value (object k mem))) refl))
  deserialize_property-wire (object t mem) (text q) h k e = absurd (omega (arith, ap size_of e))
  deserialize_property-wire (object t mem) (bytes b) h k e = absurd (omega (arith, ap size_of e))
  deserialize_property-wire (text q) (object u m) h k e = absurd (omega (arith, k.0, ap size_of e))
  deserialize_property-wire (text q) (text r) h k e =
      rw (c_str-All (to_std_string q) h) (rw (qt.of_c_str-to_std_string q) refl)
  deserialize_property-wire (text q) (bytes b) h k e = cc
  deserialize_property-wire (bytes b) (object u m) h k e = absurd (omega (arith, k.0, ap size_of e))
  deserialize_property-wire (bytes b) (text q) h k e = cc
  deserialize_property-wire (bytes b) (bytes c) h k e = refl

  -- A value of any of the types, serialized on one side, is what the other side stores in a property of
  -- that type, whatever the property held. A text must be free of NUL characters.
  pub deserialize-serialize :
      (v w : Value qt)
      → IsSound v
      → IsValue w
      → type_of w ≡ type_of v
      → deserialize qt (init names) (serialize qt (init names) (property v)) (property w)
        ≡ some (store v)
  unfolding deserialize
  deserialize-serialize v w h k e =
      rw (serialize_lem v h)
        (rw (e, lookup-init names (type_of v)) (deserialize_property-wire v w h k e))

  -- A buffer whose size is not that of a plain type changes nothing.
  pub deserialize_wrong_size :
      (buf mem : List ℕ) (t : TypeId)
      → IsPlain t
      → length buf ≢ size_of t
      → (deserialize qt (init names) buf (property (object t mem)) ≡ none)
        × ((v : Option (Value qt)) → deserialize_object qt (plain t) buf v ≡ (v, false))
  unfolding deserialize deserialize_property deserialize_object
  deserialize_wrong_size buf mem t p ne = (
    rw (lookup-init names t, plain-serializer t p)
        (rw (==_refl) (rw (ne→== (length buf) (size_of t) ne) refl)),
    λ v. rw (ne→== (length buf) (size_of t) ne) refl,
  )

  -- A text with a NUL character arrives cut before it.
  pub deserialize_cuts_text :
      (q r : QString) (before after : List ℕ)
      → to_std_string q ≡ before ++ (0 ∷ after)
      → All (λ b. b ≢ 0) before
      → deserialize qt
          (init names)
          (serialize qt (init names) (property (text q)))
          (property (text r))
        ≡ some (sync_value (text (of_c_str before)))
  unfolding deserialize deserialize_property serialize serialize_property
  deserialize_cuts_text q r before after e h =
      rw (lookup-init names qstring, e) (rw (c_str-append before after h) refl)

  -- `deserialize` into an object stores the value and still returns false, for QString and QByteArray.
  pub deserialize_object_returns_false :
      (buf : List ℕ) (v : Value qt)
      → (deserialize_object qt for_qstring buf (some v)
          ≡ (some (text (of_c_str (c_str buf))), false))
        × (deserialize_object qt for_qbytearray buf (some v) ≡ (some (bytes buf), false))
  unfolding deserialize_object
  deserialize_object_returns_false buf v = (refl, refl)

  -- `get_size` of a plain type's name is the size of what `serialize` gives for a property of the type.
  pub get_size-serialize :
      (t : TypeId) (mem : List ℕ)
      → IsPlain t
      → length mem ≡ size_of t
      → get_size (init names) (name t)
        ≡ some (length (serialize qt (init names) (property (object t mem))))
  unfolding get_size
  get_size-serialize t mem p e =
      rw (serialize_lem (object t mem) (p, e))
        (rw (lookup-init names t, plain-serializer t p) (rw e refl))
