-- ===== src/Serializer/Typing.antt =====
-- What a property can be made to hold by bytes that arrive.
use treeipc.Base.{
  ℕ, ◌<◌, ◌≡◌, refl, sym, subst, List, length, Bool, true, false, ◌&&◌, Option, none, some, ◌==◌,
  if◌then◌else◌, ◌>>=◌, arith, lookup,
}
use treeipc.Types.{TypeId, TypeNames, QtText, size_of, same_type, index, index_injective}
use treeipc.Serializer.{
  Serializer, plain, for_qstring, for_qbytearray, Machine, Value, object, text, bytes, Property,
  Store, set_value, sync_value, deserialize, deserialize_property,
}
use treeipc.Serializer.RoundTrip.{type_of, IsValue}

module _ (names : TypeNames) (qt : QtText) where
  abbrev pub stored : Store qt → Value qt
  stored (set_value v) = v
  stored (sync_value v) = v

  -- The value stored is one of the type of the value that it replaces.
  pub record Fits (v : Value qt) (s : Store qt) : Type 0 where
    pub same_type_of : type_of names qt (stored s) ≡ type_of names qt v
    pub is_value : IsValue names qt (stored s)

  -- Nothing is stored, or something that fits.
  abbrev pub FitsIfAny : Value qt → Option (Store qt) → Type 0
  FitsIfAny v none = Unit
  FitsIfAny v (some s) = Fits v s

  plain-Fits :
      (t u : TypeId) (buf mem : List ℕ) (b : Bool)
      → (same_type t u && (length buf == size_of t)) ≡ b
      → IsValue names qt (object u mem)
      → FitsIfAny (object u mem) (if b then some (set_value (object t buf)) else none)
  plain-Fits t u buf mem false e h = tt
  plain-Fits t u buf mem true e h =
      let same : index t ≡ index u = ground (arith, e) in
      let size : length buf ≡ size_of t = ground (arith, e) in
      let tu = index_injective t u same in
      record { same_type_of = tu; is_value = (subst (λ x. 0 < size_of x) (sym tu) h.0, size) }

  deserialize_property-Fits :
      (s : Serializer) (buf : List ℕ) (v : Value qt)
      → IsValue names qt v
      → FitsIfAny v (deserialize_property qt s buf v)
  unfolding deserialize_property
  deserialize_property-Fits (plain t) buf (object u mem) h = plain-Fits t u buf mem _ refl h
  deserialize_property-Fits (plain t) buf (text q) h = tt
  deserialize_property-Fits (plain t) buf (bytes b) h = tt
  deserialize_property-Fits for_qstring buf (object u mem) h = tt
  deserialize_property-Fits for_qstring buf (text q) h = record {
    same_type_of = refl;
    is_value = tt;
  }
  deserialize_property-Fits for_qstring buf (bytes b) h = tt
  deserialize_property-Fits for_qbytearray buf (object u mem) h = tt
  deserialize_property-Fits for_qbytearray buf (text q) h = tt
  deserialize_property-Fits for_qbytearray buf (bytes b) h = record {
    same_type_of = refl;
    is_value = tt;
  }

  found-Fits :
      (o : Option Serializer) (buf : List ℕ) (v : Value qt)
      → IsValue names qt v
      → FitsIfAny v (o >>= λ s. deserialize_property qt s buf v)
  found-Fits none buf v h = tt
  found-Fits (some s) buf v h = deserialize_property-Fits s buf v h

  -- Whatever bytes arrive, and whatever serializers the machine has under whatever names: what
  -- `deserialize` stores in a property is a value of the type that the property has.
  pub deserialize-Fits :
      (m : Machine) (buf : List ℕ) (c : Property qt)
      → IsValue names qt c.value
      → FitsIfAny c.value (deserialize qt m buf c)
  unfolding deserialize
  deserialize-Fits m buf c h = found-Fits (lookup c.type m) buf c.value h
