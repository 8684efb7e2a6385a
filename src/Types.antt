-- ===== src/Types.antt =====
-- The value types that the library moves, their C++ type names, and values as they lie in memory. What
-- `typeid(T).name()` and Qt's text conversions return is not part of the repository.
pub mod Samples
use treeipc.Base.{
  ℕ, zero, suc, ◌≡◌, ◌≢◌, refl, sym, ap, ◌∙◌, List, [], ◌∷◌, length, All, Bool, true, false, ◌==◌,
  ==_refl, bytes_eq, bytes_eq→eq, bytes_eq_refl, arith, inl, inr, Bool-cases, ne→==, ℕ_discrete,
}

pub data TypeId : Type 0 where
  double float int bool qstring qbytearray : TypeId

abbrev pub index : TypeId → ℕ
index double = 0
index float = 1
index int = 2
index bool = 3
index qstring = 4
index qbytearray = 5

abbrev pub same_type : TypeId → TypeId → Bool
same_type a b = index a == index b

-- `typeid(T).name()`: distinct types have distinct names, and no name is empty.
pub record TypeNames : Type 0 where
  pub name : TypeId → List ℕ
  pub name_injective : (a b : TypeId) → name a ≡ name b → a ≡ b
  pub name-ne-nil : (a : TypeId) → name a ≢ []

-- QString, its UTF-8 bytes (`toStdString`), and the text that a NUL-terminated UTF-8 string stands for.
pub record QtText : Type 1 where
  pub QString : Type 0
  pub to_std_string : QString → List ℕ
  pub of_c_str : List ℕ → QString
  pub of_c_str-to_std_string : (q : QString) → of_c_str (to_std_string q) ≡ q

-- The bytes of a `std::string` up to its first NUL: what `c_str()` shows to a callee.
unfoldable pub c_str : List ℕ → List ℕ
c_str [] = []
c_str (b ∷ bs) = elim (b == 0) [ true ↦ [] | false ↦ b ∷ c_str bs ]

-- `sizeof` of the types that are copied as they lie in memory.
abbrev pub size_of : TypeId → ℕ
size_of double = 8
size_of float = 4
size_of int = 4
size_of bool = 1
size_of qstring = 0
size_of qbytearray = 0

-- `of_index` undoes `index`.
of_index : ℕ → TypeId
of_index zero = double
of_index (suc zero) = float
of_index (suc (suc zero)) = int
of_index (suc (suc (suc zero))) = bool
of_index (suc (suc (suc (suc zero)))) = qstring
of_index (suc (suc (suc (suc (suc n))))) = qbytearray

of_index-index : (a : TypeId) → of_index (index a) ≡ a
unfolding of_index
of_index-index double = refl
of_index-index float = refl
of_index-index int = refl
of_index-index bool = refl
of_index-index qstring = refl
of_index-index qbytearray = refl

pub index_injective : (a b : TypeId) → index a ≡ index b → a ≡ b
index_injective a b e = sym (of_index-index a) ∙ ap of_index e ∙ of_index-index b

module _ (names : TypeNames) where
  open names use {name}

  -- Names compare as the types do.
  pub bytes_eq-name : (a b : TypeId) → bytes_eq (name a) (name b) ≡ same_type a b
  bytes_eq-name a b = elim (ℕ_discrete (index a) (index b)) [
    | yes e ↦ rw (index_injective a b e) (bytes_eq_refl (name b) ∙ sym (==_refl (index b)))
    | no ne ↦ elim (Bool-cases (bytes_eq (name a) (name b))) [
      | inl t ↦ absurd (ne (ap index (names.name_injective a b (bytes_eq→eq (name a) (name b) t))))
      | inr f ↦ f ∙ sym (ne→== (index a) (index b) ne)
    ]
  ]
