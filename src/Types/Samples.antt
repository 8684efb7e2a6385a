-- ===== src/Types/Samples.antt =====
-- Type names and texts to run the definitions on: a name is one byte, and a text is its UTF-8 bytes.
use treeipc.Base.{ℕ, ◌+◌, ◌≡◌, ◌≢◌, refl, List, [], ◌∷◌, arith, ap}
use treeipc.Types.{TypeId, TypeNames, QtText, index, index_injective}

abbrev head_or : ℕ → List ℕ → ℕ
head_or d [] = d
head_or d (x ∷ xs) = x

abbrev byte_name : TypeId → List ℕ
byte_name t = (index t + 65) ∷ []

pub byte_name_injective : (a b : TypeId) → byte_name a ≡ byte_name b → a ≡ b
byte_name_injective a b e = index_injective a b (omega (arith, ap (head_or 0) e))

pub byte_name-ne-nil : (a : TypeId) → byte_name a ≢ []
byte_name-ne-nil a e = cc

abbrev pub byte_names : TypeNames
byte_names = record {
  name = byte_name;
  name_injective = byte_name_injective;
  name-ne-nil = byte_name-ne-nil;
}

abbrev pub utf_eight : QtText
utf_eight = record {
  QString = List ℕ;
  to_std_string = λ q. q;
  of_c_str = λ q. q;
  of_c_str-to_std_string = λ q. refl;
}
