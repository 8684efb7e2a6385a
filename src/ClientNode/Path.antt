-- ===== src/ClientNode/Path.antt =====
-- `get` of a client node ends, asks for what is missing once, and without `create` for nothing.
use treeipc.Base.{
  ℕ, zero, suc, ◌≤◌, ◌<◌, ◌≡◌, refl, List, [], ◌∷◌, length, Bool, true, false, ◌&&◌, Option, none,
  some, ◌==◌, if◌then◌else◌, bytes_eq, arith, Bool-cases, inl, inr,
}
use treeipc.ClientNode.{
  World, Result, returns, get, strip, skip_slashes, is_self, ensure_at, go_on, child_of,
  unless_empty,
}

skip_slashes_short : (path : List ℕ) → length (skip_slashes path) ≤ length path
unfolding skip_slashes
skip_slashes_short [] = omega arith
skip_slashes_short (c ∷ path) = ground (arith, skip_slashes_short path)

unless_empty_short :
    (path rest : List ℕ) → length rest ≤ length path → length (unless_empty path rest) ≤ length path
unless_empty_short path [] h = omega arith
unless_empty_short path (c ∷ rest) h = h

strip_short : (path : List ℕ) → length (strip path) ≤ length path
unfolding strip
strip_short path = unless_empty_short path (skip_slashes path) (skip_slashes_short path)

-- What the tree's calls do, as far as `get` relies on it.
pub record IsLawful (w : World) : Type 0 where
  pub next_shorter :
      (c : ℕ) (path : List ℕ) → length (w.next_level (c ∷ path)).1 < length (c ∷ path)
  pub children-insert :
      (s : w.State) (n : ℕ) (name : List ℕ) (child m : ℕ) (other : List ℕ)
      → w.children (w.insert s n name child).0 m other ≡ (
          if (w.insert s n name child).1 && ((n == m) && bytes_eq name other)
          then some (some child)
          else w.children s m other)
  pub children-fetch :
      (s : w.State) (n : ℕ) (name : List ℕ) (m : ℕ) (other : List ℕ)
      → w.children (w.fetch s n name).0 m other ≡ w.children s m other
  pub children-other_get :
      (s : w.State) (n : ℕ) (path : List ℕ) (create : Bool) (m : ℕ) (name : List ℕ) (c : ℕ)
      → w.children s m name ≡ some (some c)
      → w.children (w.other_get s n path create).0 m name ≡ some (some c)
  pub other_get_pure : (s : w.State) (n : ℕ) (path : List ℕ) → (w.other_get s n path false).0 ≡ s
  pub other_get_again :
      (s : w.State) (n : ℕ) (path : List ℕ) (m : ℕ)
      → (w.other_get s n path true).1 ≡ some m
      → (w.other_get (w.other_get s n path true).0 n path false).1 ≡ some m
  pub has_client-other_get :
      (s : w.State) (n : ℕ) (path : List ℕ) (create : Bool) (m : ℕ)
      → w.has_client (w.other_get s n path create).0 m ≡ w.has_client s m
  pub has_client-insert :
      (s : w.State) (n : ℕ) (name : List ℕ) (child m : ℕ)
      → w.has_client (w.insert s n name child).0 m ≡ w.has_client s m
  pub has_client-fetch :
      (s : w.State) (n : ℕ) (name : List ℕ) (m : ℕ)
      → w.has_client (w.fetch s n name).0 m ≡ w.has_client s m

module _ (w : World) (law : IsLawful w) where
  open w use {State, is_client_node, has_client, children, insert, fetch, other_get, next_level}

  rest_short : (path : List ℕ) → is_self path ≡ false → length (next_level path).1 < length path
  unfolding is_self bytes_eq
  rest_short [] h = cc
  rest_short (c ∷ path) h = law.next_shorter c path

  -- What is left of a path below its first name is shorter.
  pub rest_of_short :
      (path : List ℕ)
      → is_self (strip path) ≡ false
      → length (next_level (strip path)).1 < length path
  rest_of_short path h = omega (arith, rest_short (strip path) h, strip_short path)

  go_on_ends :
      (s : State) (ok : Bool) (child : Option ℕ) (next : State → ℕ → Result w)
      → ((t : State) (c : ℕ) → (s' : State) × (m : Option ℕ) × (next t c ≡ returns s' m))
      → (s' : State) × (m : Option ℕ) × (go_on w s ok child next ≡ returns s' m)
  go_on_ends s false child next h = (s, none, refl)
  go_on_ends s true none next h = (s, none, refl)
  go_on_ends s true (some c) next h = h s c

  -- The path shrinks by a name at each level: on fuel above its length `get` returns.
  pub get_ends :
      (fuel : ℕ) (s : State) (n : ℕ) (path : List ℕ) (create : Bool)
      → length path < fuel
      → (s' : State) × (m : Option ℕ) × (get w fuel s n path create ≡ returns s' m)
  unfolding get
  get_ends zero s n path create h = absurd (omega arith)
  get_ends (suc fuel) s n path create h = elim (Bool-cases (is_client_node n)) [
    | inr other ↦ ((other_get s n path create).0, (other_get s n path create).1, rw other refl)
    | inl own ↦ elim (Bool-cases (has_client s n)) [
      | inr lost ↦ (s, none, rw (own, lost) refl)
      | inl known ↦ elim (Bool-cases (is_self (strip path))) [
        | inl here ↦ (s, some n, rw (own, known, here) refl)
        | inr below ↦
            let name = (next_level (strip path)).0 in
            let rest = (next_level (strip path)).1 in
            let r = ensure_at w s n name create (children s n name) in
            let short : length rest < fuel = omega (arith, rest_of_short path below) in
            rw (own, known, below)
              (go_on_ends r.0 r.1 (child_of w (children r.0 n name))
                (λ t child. get w fuel t child rest create)
                (λ t c. get_ends fuel t c rest create short))
      ]
    ]
  ]
