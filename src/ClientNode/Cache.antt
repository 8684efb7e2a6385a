-- ===== src/ClientNode/Cache.antt =====
-- What `get` has brought stays: a second `get` finds it without asking the other side.
use treeipc.Base.{
  ℕ, zero, suc, ◌≡◌, ◌≢◌, refl, sym, ap, subst, ◌∙◌, List, Bool, true, false, Option, none, some,
  arith, Bool-cases, inl, inr, bytes_eq→eq,
}
use treeipc.ClientNode.{
  World, Result, returns, get, strip, is_self, ensure_at, go_on, child_of, insert_fetched,
}
use treeipc.ClientNode.Path.{IsLawful}
use treeipc.ClientNode.Levels.{name_of, rest_of, ensured, get_other, get_lost, get_here, get_below}

module _ (w : World) (law : IsLawful w) where
  open w use {State, is_client_node, has_client, children, insert, fetch, other_get, next_level}

  state_eq :
      {s t : State} {o o' : Option ℕ} → ◌≡◌ {A = Result w} (returns s o) (returns t o') → s ≡ t
  state_eq e = cc

  -- Every child that was there is there, and every node has the client that it had.
  record Keeps (s t : State) : Type 0 where
    child_stays :
        (m : ℕ) (name : List ℕ) (c : ℕ)
        → children s m name ≡ some (some c)
        → children t m name ≡ some (some c)
    client_stays : (m : ℕ) → has_client t m ≡ has_client s m

  Keeps-self : (s : State) → Keeps s s
  Keeps-self s = record { child_stays = λ m name c e. e; client_stays = λ m. refl }

  Keeps-trans : (s t u : State) → Keeps s t → Keeps t u → Keeps s u
  Keeps-trans s t u h k = record {
    child_stays = λ m name c e. k.child_stays m name c (h.child_stays m name c e);
    client_stays = λ m. k.client_stays m ∙ h.client_stays m;
  }

  Keeps-insert :
      (s : State) (n : ℕ) (name : List ℕ) (child : ℕ)
      → children s n name ≡ none
      → Keeps s (insert s n name child).0
  Keeps-insert s n name child new = record {
    child_stays = λ m other c e.
        ground (arith, law.children-insert s n name child m other, bytes_eq→eq name other);
    client_stays = λ m. law.has_client-insert s n name child m;
  }

  Keeps-fetch : (s : State) (n : ℕ) (name : List ℕ) → Keeps s (fetch s n name).0
  Keeps-fetch s n name = record {
    child_stays = λ m other c e. law.children-fetch s n name m other ∙ e;
    client_stays = λ m. law.has_client-fetch s n name m;
  }

  Keeps-other_get :
      (s : State) (n : ℕ) (path : List ℕ) (create : Bool) → Keeps s (other_get s n path create).0
  Keeps-other_get s n path create = record {
    child_stays = λ m name c e. law.children-other_get s n path create m name c e;
    client_stays = λ m. law.has_client-other_get s n path create m;
  }

  Keeps-insert_fetched :
      (s t : State) (n : ℕ) (name : List ℕ) (o : Option ℕ)
      → Keeps s t
      → children t n name ≡ none
      → Keeps s (insert_fetched w n name (t, o)).0
  Keeps-insert_fetched s t n name none k e = k
  Keeps-insert_fetched s t n name (some c) k e =
      Keeps-trans s t (insert t n name c).0 k (Keeps-insert t n name c e)

  Keeps-ensure_at :
      (s : State) (n : ℕ) (name : List ℕ) (create : Bool) (o : Option (Option ℕ))
      → children s n name ≡ o
      → Keeps s (ensure_at w s n name create o).0
  unfolding ensure_at
  Keeps-ensure_at s n name create (some c) e = Keeps-self s
  Keeps-ensure_at s n name false none e = Keeps-self s
  Keeps-ensure_at s n name true none e =
      Keeps-insert_fetched s (fetch s n name).0 n name (fetch s n name).1 (Keeps-fetch s n name)
        (law.children-fetch s n name n name ∙ e)

  Keeps-go_on :
      (s t u : State) (ok : Bool) (child o : Option ℕ) (next : State → ℕ → Result w)
      → Keeps s t
      → ((c : ℕ) → next t c ≡ returns u o → Keeps t u)
      → go_on w t ok child next ≡ returns u o
      → Keeps s u
  Keeps-go_on s t u false child o next k deeper e = subst (Keeps s) (state_eq e) k
  Keeps-go_on s t u true none o next k deeper e = subst (Keeps s) (state_eq e) k
  Keeps-go_on s t u true (some c) o next k deeper e = Keeps-trans s t u k (deeper c e)

  out_of_fuel-ne :
      {u : State} {o : Option ℕ} (n : ℕ) (s : State) (path : List ℕ) (create : Bool)
      → get w 0 s n path create ≢ returns u o
  unfolding get
  out_of_fuel-ne n s path create e = cc

  Keeps-get :
      (fuel : ℕ) (s u : State) (n : ℕ) (path : List ℕ) (create : Bool) (o : Option ℕ)
      → get w fuel s n path create ≡ returns u o
      → Keeps s u
  Keeps-get zero s u n path create o e = absurd (out_of_fuel-ne n s path create e)
  Keeps-get (suc fuel) s u n path create o e = elim (Bool-cases (is_client_node n)) [
    | inr other ↦
        subst (Keeps s) (state_eq (sym (get_other w law fuel s n path create other) ∙ e))
          (Keeps-other_get s n path create)
    | inl own ↦ elim (Bool-cases (has_client s n)) [
      | inr lost ↦
          subst (Keeps s) (state_eq (sym (get_lost w law fuel s n path create own lost) ∙ e))
            (Keeps-self s)
      | inl known ↦ elim (Bool-cases (is_self (strip path))) [
        | inl here ↦
            subst (Keeps s)
              (state_eq (sym (get_here w law fuel s n path create own known here) ∙ e))
              (Keeps-self s)
        | inr below ↦
            let r = ensured w s n path create in
            Keeps-go_on s r.0 u r.1 (child_of w (children r.0 n (name_of w path))) o
              (λ t child. get w fuel t child (rest_of w path) create)
              (Keeps-ensure_at s n (name_of w path) create (children s n (name_of w path)) refl)
              (λ c. Keeps-get fuel r.0 u c (rest_of w path) create o)
              (sym (get_below w law fuel s n path create own known below) ∙ e)
      ]
    ]
  ]

  node_eq :
      {s t : State} {o o' : Option ℕ} → ◌≡◌ {A = Result w} (returns s o) (returns t o') → o ≡ o'
  node_eq e = cc

  none-ne : {s t : State} {m : ℕ} → ◌≢◌ {A = Result w} (returns s none) (returns t (some m))
  none-ne e = cc

  -- A `go_on` that returned a node went deeper, by a child.
  record WentDeeper (t u : State) (ok : Bool) (child : Option ℕ) (m : ℕ)
      (next : State → ℕ → Result w) : Type 0 where
    by : ℕ
    is_child : child ≡ some by
    returned : next t by ≡ returns u (some m)

  go_on-WentDeeper :
      (t u : State) (ok : Bool) (child : Option ℕ) (m : ℕ) (next : State → ℕ → Result w)
      → go_on w t ok child next ≡ returns u (some m)
      → WentDeeper t u ok child m next
  go_on-WentDeeper t u false child m next e = absurd (cc)
  go_on-WentDeeper t u true none m next e = absurd (cc)
  go_on-WentDeeper t u true (some c) m next e = record { by = c; is_child = refl; returned = e }

  child_of-some : (o : Option (Option ℕ)) (c : ℕ) → child_of w o ≡ some c → o ≡ some (some c)
  child_of-some none c e = cc
  child_of-some (some child) c e = ap some e

  cached_below :
      (fuel : ℕ) (u : State) (n c m : ℕ) (path : List ℕ)
      → is_client_node n ≡ true
      → has_client u n ≡ true
      → is_self (strip path) ≡ false
      → children u n (name_of w path) ≡ some (some c)
      → get w fuel u c (rest_of w path) false ≡ returns u (some m)
      → get w (suc fuel) u n path false ≡ returns u (some m)
  unfolding ensure_at
  cached_below fuel u n c m path own known below here deeper =
      get_below w law fuel u n path false own known below
      ∙ ap
          (λ o.
            let r = ensure_at w u n (name_of w path) false o in
            go_on w r.0 r.1 (child_of w (children r.0 n (name_of w path)))
              (λ t child. get w fuel t child (rest_of w path) false))
          here
      ∙ ap
          (λ o.
            go_on w u true (child_of w o) (λ t child. get w fuel t child (rest_of w path) false))
          here
      ∙ deeper

  -- What the tree's own `get` has found.
  other_again :
      (fuel : ℕ) (s u : State) (n m : ℕ) (path : List ℕ)
      → is_client_node n ≡ false
      → ◌≡◌ {A = Result w}
          (returns (other_get s n path true).0 (other_get s n path true).1)
          (returns u (some m))
      → get w (suc fuel) u n path false ≡ returns u (some m)
  other_again fuel s u n m path other e =
      let t = (other_get s n path true).0 in
      let same : t ≡ u = state_eq e in
      let found = law.other_get_again s n path m (node_eq e) in
      get_other w law fuel u n path false other
      ∙ ap (λ x. returns x (other_get u n path false).1) (law.other_get_pure u n path)
      ∙ ap (returns u) (ap (λ x. (other_get x n path false).1) (sym same) ∙ found)

  -- Over a tree whose own `get` keeps children, changes nothing without `create`, and then finds again
  -- what it has found with it, and a `fetch_node` that leaves children and clients as they were: once
  -- `get` with `create` has found a node, `get` of the same path without `create`, which asks the other
  -- side for nothing, finds the same node and changes nothing.
  pub get_cached :
      (fuel : ℕ) (s u : State) (n m : ℕ) (path : List ℕ)
      → get w fuel s n path true ≡ returns u (some m)
      → get w fuel u n path false ≡ returns u (some m)
  get_cached zero s u n m path e = absurd (out_of_fuel-ne n s path true e)
  get_cached (suc fuel) s u n m path e = elim (Bool-cases (is_client_node n)) [
    | inr other ↦
        other_again fuel s u n m path other (sym (get_other w law fuel s n path true other) ∙ e)
    | inl own ↦ elim (Bool-cases (has_client s n)) [
      | inr lost ↦ absurd (none-ne (sym (get_lost w law fuel s n path true own lost) ∙ e))
      | inl known ↦
          let kept = Keeps-get (suc fuel) s u n path true (some m) e in
          let known' : has_client u n ≡ true = kept.client_stays n ∙ known in
          elim (Bool-cases (is_self (strip path))) [
            | inl here ↦
                get_here w law fuel u n path false own known' here
                ∙ ap (returns u)
                    (node_eq (sym (get_here w law fuel s n path true own known here) ∙ e))
            | inr below ↦
                let r = ensured w s n path true in
                let d =
                  go_on-WentDeeper r.0 u r.1 (child_of w (children r.0 n (name_of w path))) m
                    (λ t child. get w fuel t child (rest_of w path) true)
                    (sym (get_below w law fuel s n path true own known below) ∙ e) in
                cached_below fuel u n d.by m path own known' below
                  ((Keeps-get fuel r.0 u d.by (rest_of w path) true (some m) d.returned).child_stays
                    n (name_of w path) d.by
                    (child_of-some (children r.0 n (name_of w path)) d.by d.is_child))
                  (get_cached fuel r.0 u d.by m (rest_of w path) d.returned)
          ]
    ]
  ]
