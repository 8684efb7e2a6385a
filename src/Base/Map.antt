-- ===== src/Base/Map.antt =====
-- `std::map` with string keys, as far as it is looked up and assigned to.
use mathlib.Core.Path.{◌≡◌, refl}
use mathlib.Core.Option.{Option, none, some}
use mathlib.Core.List.{List, [], ◌∷◌}
use Prim.Native.Nat.{ℕ}
use native.Mathlib.Omega.{arith}
use treeipc.Base.Tests.{bytes_eq, bytes_eq→eq, bytes_eq_refl, if◌then◌else◌}

module _ {V : Type 0} where
  unfoldable pub lookup : List ℕ → List (List ℕ × V) → Option V
  lookup k [] = none
  lookup k ((j, v) ∷ m) = if bytes_eq j k then some v else lookup k m

  -- `m[k] = v`
  unfoldable pub insert : List ℕ → V → List (List ℕ × V) → List (List ℕ × V)
  insert k v [] = (k, v) ∷ []
  insert k v ((j, w) ∷ m) = if bytes_eq j k then (k, v) ∷ m else (j, w) ∷ insert k v m

  pub lookup-insert :
      (k j : List ℕ) (v : V) (m : List (List ℕ × V))
      → lookup j (insert k v m) ≡ (if bytes_eq k j then some v else lookup j m)
  unfolding lookup insert
  lookup-insert k j v [] = refl
  lookup-insert k j v ((i, w) ∷ m) = ground (
    arith,
    bytes_eq→eq i k,
    bytes_eq→eq i j,
    bytes_eq→eq k j,
    bytes_eq_refl k,
    bytes_eq_refl j,
    lookup-insert k j v m,
  )
