-- ===== src/Generator/Coverage.antt =====
-- Which types the generator and the serializers know.
use treeipc.Base.{
  ◌≡◌, ◌≢◌, refl, sym, [], none, some, lookup, lookup-insert, bytes_eq, bytes_eq→eq, Bool-cases,
  inl, inr, false,
}
use treeipc.Types.{TypeId, double, float, int, bool, qstring, qbytearray, TypeNames, bytes_eq-name}
use treeipc.Generator.{client_node, client_node_value, new_generator, generate}
use treeipc.Serializer.{init}
use treeipc.Serializer.Registry.{lookup-init, serializer_of}

module _ (names : TypeNames) where
  open names use {name}

  nil-name : (t : TypeId) → bytes_eq [] (name t) ≡ false
  nil-name t = elim (Bool-cases (bytes_eq [] (name t))) [
    | inl e ↦ absurd (names.name-ne-nil t (sym (bytes_eq→eq [] (name t) e)))
    | inr e ↦ e
  ]

  name-nil : (t : TypeId) → bytes_eq (name t) [] ≡ false
  name-nil t = elim (Bool-cases (bytes_eq (name t) [])) [
    | inl e ↦ absurd (names.name-ne-nil t (bytes_eq→eq (name t) [] e))
    | inr e ↦ e
  ]

  by_type :
      (t : TypeId)
      → t ≢ float
      → generate (new_generator names) (name t) ≡ some (client_node_value t)
  unfolding generate new_generator
  by_type double h = simp (lookup-insert, bytes_eq-name names) refl
  by_type float h = absurd (h refl)
  by_type int h = simp (lookup-insert, bytes_eq-name names) refl
  by_type bool h = simp (lookup-insert, bytes_eq-name names) refl
  by_type qstring h = simp (lookup-insert, bytes_eq-name names) refl
  by_type qbytearray h = simp (lookup-insert, bytes_eq-name names) refl

  -- A node without a type is stood for by a plain client node, and a property of any type but float by
  -- a proxy of that type.
  pub generate_lem :
      (t : TypeId)
      → t ≢ float
      → (generate (new_generator names) [] ≡ some client_node)
        × (generate (new_generator names) (name t) ≡ some (client_node_value t))
  unfolding generate new_generator bytes_eq
  generate_lem t h = (simp (lookup-insert, name-nil) refl, by_type t h)

  -- A float property can be serialized, and no node is generated for it.
  pub generate-float :
      (lookup (name float) (init names) ≡ some (serializer_of float))
      × (generate (new_generator names) (name float) ≡ none)
  unfolding generate new_generator lookup
  generate-float =
      (lookup-init names float, simp (lookup-insert, nil-name, bytes_eq-name names) refl)
