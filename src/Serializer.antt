-- ===== src/Serializer.antt =====
-- property_serializer.h: the serializers of the value types, and `serializer_machine`, which finds one by
-- a type's name.
pub mod Registry
pub mod RoundTrip
pub mod Typing
pub mod Objects
mod Tests
use treeipc.Base.{
  ℕ, ◌-◌, List, [], length, resize, overwrite, ◌==◌, if◌then◌else◌, Bool, true, false, ◌&&◌, Option,
  none, some, lookup, insert, ◌>>=◌,
}
use treeipc.Types.{
  TypeId, double, float, int, bool, qstring, qbytearray, same_type, TypeNames, QtText, c_str,
  size_of,
}

-- A serializer: `serializer_plain<type>`, `serializer_qstring`, `serializer_qbytearray`.
pub data Serializer : Type 0 where
  plain : TypeId → Serializer
  for_qstring for_qbytearray : Serializer

-- `serializer_machine`: its map, from type names.
abbrev pub Machine : Type 0
Machine = List (List ℕ × Serializer)

-- `add_serializer`, and `add_plain_serializer` with a name.
unfoldable pub add_serializer : Machine → List ℕ → Serializer → Machine
add_serializer m type s = insert type s m

module _ (names : TypeNames) where
  open names use {name}

  unfoldable pub add_plain_serializer : Machine → TypeId → Machine
  add_plain_serializer m t = add_serializer m (name t) (plain t)

  -- The default constructor.
  unfoldable pub init : Machine
  init =
      let m = add_plain_serializer [] double in
      let m = add_plain_serializer m float in
      let m = add_plain_serializer m int in
      let m = add_plain_serializer m bool in
      let m = add_serializer m (name qstring) for_qstring in
      add_serializer m (name qbytearray) for_qbytearray

module _ (qt : QtText) where
  open qt use {QString, to_std_string, of_c_str}

  -- A C++ object of one of the value types; a plain one by its bytes in memory.
  pub data Value : Type 0 where
    object : TypeId → List ℕ → Value
    text : QString → Value
    bytes : List ℕ → Value

  -- A property: what its `get_type` returns, and its value, whose constructor is the type that
  -- `dynamic_cast<property<type> *>` asks for.
  pub record Property : Type 0 where
    pub type : List ℕ
    pub value : Value

  -- How a property's value is replaced: as by a user, or as by the other side.
  pub data Store : Type 0 where
    set_value sync_value : Value → Store

  -- `serialize(property_base *)`: empty where the cast fails.
  unfoldable pub serialize_property : Serializer → Value → List ℕ
  serialize_property (plain t) (object u mem) =
      if same_type t u then overwrite 0 mem (resize (size_of t) 0 []) else []
  serialize_property (plain t) (text q) = []
  serialize_property (plain t) (bytes b) = []
  serialize_property for_qstring (object u mem) = []
  serialize_property for_qstring (text q) = to_std_string q
  serialize_property for_qstring (bytes b) = []
  serialize_property for_qbytearray (object u mem) = []
  serialize_property for_qbytearray (text q) = []
  serialize_property for_qbytearray (bytes b) = b

  -- `serialize(const void *)`, which takes the object for one of its type: `none` where it is not.
  unfoldable pub serialize_object : Serializer → Value → Option (List ℕ)
  serialize_object (plain t) (object u mem) =
      if same_type t u then some (overwrite 0 mem (resize (size_of t) 0 [])) else none
  serialize_object (plain t) (text q) = none
  serialize_object (plain t) (bytes b) = none
  serialize_object for_qstring (object u mem) = none
  serialize_object for_qstring (text q) = some (to_std_string q)
  serialize_object for_qstring (bytes b) = none
  serialize_object for_qbytearray (object u mem) = none
  serialize_object for_qbytearray (text q) = none
  serialize_object for_qbytearray (bytes b) = some b

  -- `serialize(property_base *, void *)`: the bytes that reach the memory behind the pointer, or `none`
  -- where it returns false.
  unfoldable pub serialize_into : Serializer → Value → Option (List ℕ)
  serialize_into (plain t) (object u mem) = if same_type t u then some mem else none
  serialize_into (plain t) (text q) = none
  serialize_into (plain t) (bytes b) = none
  serialize_into for_qstring (object u mem) = none
  serialize_into for_qstring (text q) = some (to_std_string q)
  serialize_into for_qstring (bytes b) = none
  serialize_into for_qbytearray (object u mem) = none
  serialize_into for_qbytearray (text q) = none
  serialize_into for_qbytearray (bytes b) = some b

  -- `deserialize(buf, property_base *)`: what is stored, or `none` where it returns false.
  unfoldable pub deserialize_property : Serializer → List ℕ → Value → Option Store
  deserialize_property (plain t) buf (object u mem) =
      if same_type t u && (length buf == size_of t) then some (set_value (object t buf)) else none
  deserialize_property (plain t) buf (text q) = none
  deserialize_property (plain t) buf (bytes b) = none
  deserialize_property for_qstring buf (object u mem) = none
  deserialize_property for_qstring buf (text q) = some (sync_value (text (of_c_str (c_str buf))))
  deserialize_property for_qstring buf (bytes b) = none
  deserialize_property for_qbytearray buf (object u mem) = none
  deserialize_property for_qbytearray buf (text q) = none
  deserialize_property for_qbytearray buf (bytes b) = some (sync_value (bytes buf))

  -- `deserialize(buf, void *)`, for a pointer to an object of the type, or a null pointer: the object
  -- afterwards, and the result.
  unfoldable pub deserialize_object : Serializer → List ℕ → Option Value → Option Value × Bool
  deserialize_object (plain t) buf v =
      if length buf == size_of t then (some (object t buf), true) else (v, false)
  deserialize_object for_qstring buf none = (none, false)
  deserialize_object for_qstring buf (some v) = (some (text (of_c_str (c_str buf))), false)
  deserialize_object for_qbytearray buf none = (none, false)
  deserialize_object for_qbytearray buf (some v) = (some (bytes buf), false)

  -- The machine's operations: each looks the property's type name up.
  abbrev or_empty : Option Serializer → (Serializer → List ℕ) → List ℕ
  or_empty none f = []
  or_empty (some s) f = f s

  unfoldable pub serialize : Machine → Property → List ℕ
  serialize m c = or_empty (lookup c.type m) (λ s. serialize_property s c.value)

  abbrev or_nothing : Option Serializer → (Serializer → Option (List ℕ)) → Option (List ℕ)
  or_nothing none f = some []
  or_nothing (some s) f = f s

  -- `serialize(const property_base *, const void *)`, of an object that stands for the property's value.
  unfoldable pub serialize_with : Machine → List ℕ → Value → Option (List ℕ)
  serialize_with m type v = or_nothing (lookup type m) (λ s. serialize_object s v)

  unfoldable pub serialize_to_buffer : Machine → Property → Option (List ℕ)
  serialize_to_buffer m from = do s ← lookup from.type m; serialize_into s from.value

  unfoldable pub deserialize : Machine → List ℕ → Property → Option Store
  deserialize m buf c = do s ← lookup c.type m; deserialize_property s buf c.value

  -- The templates `serialize(type)` and `deserialize(buf, type &)`, on a value that is no property: `type`
  -- is the name of its C++ type.
  unfoldable pub serialize_value : Machine → List ℕ → Value → Option (List ℕ)
  serialize_value m type val = or_nothing (lookup type m) (λ s. serialize_object s val)

  abbrev or_unchanged :
      Option Serializer → Value → (Serializer → Option Value × Bool) → Option Value × Bool
  or_unchanged none c f = (some c, false)
  or_unchanged (some s) c f = f s

  unfoldable pub deserialize_value : Machine → List ℕ → List ℕ → Value → Option Value × Bool
  deserialize_value m type buf c =
      or_unchanged (lookup type m) c (λ s. deserialize_object s buf (some c))

-- `get_size`: `none` stands for -1, a size that varies or a type that is not known.
abbrev pub serializer_size : Serializer → Option ℕ
serializer_size (plain t) = some (size_of t)
serializer_size for_qstring = none
serializer_size for_qbytearray = none

unfoldable pub get_size : Machine → List ℕ → Option ℕ
get_size m type = do s ← lookup type m; serializer_size s
