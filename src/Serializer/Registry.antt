-- ===== src/Serializer/Registry.antt =====
-- What a machine with the default serializers finds.
use treeipc.Base.{
  ℕ, ◌≡◌, ◌≢◌, refl, List, none, some, lookup, lookup-insert, bytes_eq, bytes_eq→eq, Bool-cases,
  inl, inr, false,
}
use treeipc.Types.{TypeId, double, float, int, bool, qstring, qbytearray, TypeNames, bytes_eq-name}
use treeipc.Serializer.{
  Serializer, plain, for_qstring, for_qbytearray, add_serializer, add_plain_serializer, init,
}

abbrev pub serializer_of : TypeId → Serializer
serializer_of double = plain double
serializer_of float = plain float
serializer_of int = plain int
serializer_of bool = plain bool
serializer_of qstring = for_qstring
serializer_of qbytearray = for_qbytearray

module _ (names : TypeNames) where
  open names use {name}

  -- The machine finds the serializer of each value type under its name.
  pub lookup-init : (t : TypeId) → lookup (name t) (init names) ≡ some (serializer_of t)
  unfolding init add_plain_serializer add_serializer
  lookup-init double = simp (lookup-insert, bytes_eq-name names) refl
  lookup-init float = simp (lookup-insert, bytes_eq-name names) refl
  lookup-init int = simp (lookup-insert, bytes_eq-name names) refl
  lookup-init bool = simp (lookup-insert, bytes_eq-name names) refl
  lookup-init qstring = simp (lookup-insert, bytes_eq-name names) refl
  lookup-init qbytearray = simp (lookup-insert, bytes_eq-name names) refl

  not-name : (k : List ℕ) (t : TypeId) → name t ≢ k → bytes_eq (name t) k ≡ false
  not-name k t h = elim (Bool-cases (bytes_eq (name t) k)) [
    | inl e ↦ absurd (h (bytes_eq→eq (name t) k e))
    | inr e ↦ e
  ]

  -- And nothing under any other name.
  pub lookup-init-none : (k : List ℕ) → ((t : TypeId) → name t ≢ k) → lookup k (init names) ≡ none
  unfolding init add_plain_serializer add_serializer lookup
  lookup-init-none k h =
      simp
        (
          lookup-insert,
          not-name k double (h double),
          not-name k float (h float),
          not-name k int (h int),
          not-name k bool (h bool),
          not-name k qstring (h qstring),
          not-name k qbytearray (h qbytearray),
        )
        refl
