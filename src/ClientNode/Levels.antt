-- ===== src/ClientNode/Levels.antt =====
-- The levels of `get`: what it returns by the node and the path, and that without `create` it only looks.
use treeipc.Base.{
  ℕ, zero, suc, ◌<◌, ◌≡◌, refl, ap, ◌∙◌, List, length, Bool, true, false, Option, none, some, arith,
  Bool-cases, inl, inr,
}
use treeipc.ClientNode.{World, Result, returns, get, strip, is_self, ensure_at, go_on, child_of}
use treeipc.ClientNode.Path.{IsLawful, rest_of_short}

module _ (w : World) where
  open w use {State, is_client_node, has_client, children, insert, fetch, other_get, next_level}

  -- The first name of a path, the rest, and the state once there should be a child of that name.
  abbrev pub name_of : List ℕ → List ℕ
  name_of path = (next_level (strip path)).0

  abbrev pub rest_of : List ℕ → List ℕ
  rest_of path = (next_level (strip path)).1

  abbrev pub ensured : State → ℕ → List ℕ → Bool → State × Bool
  ensured s n path create = ensure_at w s n (name_of path) create (children s n (name_of path))

  module _ (law : IsLawful w) where
    pub get_other :
        (fuel : ℕ) (s : State) (n : ℕ) (path : List ℕ) (create : Bool)
        → is_client_node n ≡ false
        → get w (suc fuel) s n path create
          ≡ returns (other_get s n path create).0 (other_get s n path create).1
    unfolding get
    get_other fuel s n path create e = rw e refl

    pub get_lost :
        (fuel : ℕ) (s : State) (n : ℕ) (path : List ℕ) (create : Bool)
        → is_client_node n ≡ true
        → has_client s n ≡ false
        → get w (suc fuel) s n path create ≡ returns s none
    unfolding get
    get_lost fuel s n path create own e = rw (own, e) refl

    pub get_here :
        (fuel : ℕ) (s : State) (n : ℕ) (path : List ℕ) (create : Bool)
        → is_client_node n ≡ true
        → has_client s n ≡ true
        → is_self (strip path) ≡ true
        → get w (suc fuel) s n path create ≡ returns s (some n)
    unfolding get
    get_here fuel s n path create own e h = rw (own, e, h) refl

    pub get_below :
        (fuel : ℕ) (s : State) (n : ℕ) (path : List ℕ) (create : Bool)
        → is_client_node n ≡ true
        → has_client s n ≡ true
        → is_self (strip path) ≡ false
        → get w (suc fuel) s n path create
          ≡ go_on w
              (ensured s n path create).0
              (ensured s n path create).1
              (child_of w (children (ensured s n path create).0 n (name_of path)))
              (λ t child. get w fuel t child (rest_of path) create)
    unfolding get
    get_below fuel s n path create own e h = rw (own, e, h) refl

    ensure_at_pure :
        (s : State) (n : ℕ) (name : List ℕ) (o : Option (Option ℕ))
        → (ensure_at w s n name false o).0 ≡ s
    unfolding ensure_at
    ensure_at_pure s n name none = refl
    ensure_at_pure s n name (some child) = refl

    go_on_pure :
        (s t : State) (ok : Bool) (child : Option ℕ) (next : State → ℕ → Result w)
        → t ≡ s
        → ((c : ℕ) → (m : Option ℕ) × (next s c ≡ returns s m))
        → (m : Option ℕ) × (go_on w t ok child next ≡ returns s m)
    go_on_pure s t false child next e h = (none, ap (λ x. returns x none) e)
    go_on_pure s t true none next e h = (none, ap (λ x. returns x none) e)
    go_on_pure s t true (some c) next e h = ((h c).0, ap (λ x. next x c) e ∙ (h c).1)

    -- Without `create`, `get` returns, asks the other side for nothing and changes nothing.
    pub get_pure :
        (fuel : ℕ) (s : State) (n : ℕ) (path : List ℕ)
        → length path < fuel
        → (m : Option ℕ) × (get w fuel s n path false ≡ returns s m)
    get_pure zero s n path h = absurd (omega arith)
    get_pure (suc fuel) s n path h = elim (Bool-cases (is_client_node n)) [
      | inr other ↦ (
        (other_get s n path false).1,
        get_other fuel s n path false other
            ∙ ap (λ t. returns t (other_get s n path false).1) (law.other_get_pure s n path),
      )
      | inl own ↦ elim (Bool-cases (has_client s n)) [
        | inr lost ↦ (none, get_lost fuel s n path false own lost)
        | inl known ↦ elim (Bool-cases (is_self (strip path))) [
          | inl here ↦ (some n, get_here fuel s n path false own known here)
          | inr below ↦
              let r = ensured s n path false in
              let deeper =
                go_on_pure s r.0 r.1 (child_of w (children r.0 n (name_of path)))
                  (λ t child. get w fuel t child (rest_of path) false)
                  (ensure_at_pure s n (name_of path) (children s n (name_of path)))
                  (λ c.
                    get_pure fuel s c (rest_of path)
                      (omega (arith, rest_of_short w law path below))) in
              (deeper.0, get_below fuel s n path false own known below ∙ deeper.1)
        ]
      ]
    ]
