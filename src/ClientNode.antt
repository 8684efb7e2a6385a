-- ===== src/ClientNode.antt =====
-- client_node.h and client_node.cpp: the nodes that stand for nodes of the other side. Their children,
-- which `tree_node` keeps, are the cache of what `fetch_node` has brought.
pub mod Path
pub mod Levels
pub mod Cache
pub mod Owner
pub mod Attaching
pub mod Lifetime
mod Tests
use treeipc.Base.{
  ℕ, zero, suc, ◌≡◌, ◌≢◌, ◌<◌, List, [], ◌∷◌, length, Bool, true, false, not, ◌&&◌, ◌||◌, Option,
  none, some, ◌==◌, if◌then◌else◌, bytes_eq,
}

-- What `client_node` asks of `tree_node`, which is code of the tree, and of its `node_sync`.
-- `children` is `children_map.find`, where `some none` is a null pointer under the name, `insert` is
-- `insert(name, n, true)`, `fetch` is `cl->fetch_node`, given the node for its id, `other_get` is `get`
-- of a node that is no client node, and `next_level` is `extract_next_level_name`, the first name of a
-- path and the rest. An insert that succeeds puts the node under the name and leaves every other child
-- where it was; a fetch leaves all children, and makes a node that is in no tree yet.
pub record World : Type 1 where
  pub State : Type 0
  pub is_client_node : ℕ → Bool
  pub has_client : State → ℕ → Bool
  pub children : State → ℕ → List ℕ → Option (Option ℕ)
  pub insert : State → ℕ → List ℕ → ℕ → State × Bool
  pub fetch : State → ℕ → List ℕ → State × Option ℕ
  pub other_get : State → ℕ → List ℕ → Bool → State × Option ℕ
  pub next_level : List ℕ → List ℕ × List ℕ

-- `path.substr(path.find_first_not_of('/'))`, where there is such a position; a path of slashes stays.
unfoldable pub skip_slashes : List ℕ → List ℕ
skip_slashes [] = []
skip_slashes (c ∷ path) = if c == b'/' then skip_slashes path else c ∷ path

abbrev pub unless_empty : List ℕ → List ℕ → List ℕ
unless_empty path [] = path
unless_empty path (c ∷ rest) = c ∷ rest

unfoldable pub strip : List ℕ → List ℕ
strip path = unless_empty path (skip_slashes path)

-- `path == "/" || path.size() == 0`
unfoldable pub is_self : List ℕ → Bool
is_self path = bytes_eq path (b'/' ∷ []) || bytes_eq path []

module _ (w : World) where
  open w use {State, is_client_node, has_client, children, insert, fetch, other_get, next_level}

  -- `get` returns the state and a node or a null pointer, or its fuel runs out.
  pub data Result : Type 0 where
    returns : State → Option ℕ → Result
    out_of_fuel : Result

  abbrev pub insert_fetched : ℕ → List ℕ → State × Option ℕ → State × Bool
  insert_fetched n name (s, none) = (s, false)
  insert_fetched n name (s, some child) = insert s n name child

  -- Makes sure of a child under the name: false where `get` returns a null pointer.
  unfoldable pub ensure_at : State → ℕ → List ℕ → Bool → Option (Option ℕ) → State × Bool
  ensure_at s n name create (some child) = (s, true)
  ensure_at s n name true none = insert_fetched n name (fetch s n name)
  ensure_at s n name false none = (s, false)

  abbrev pub child_of : Option (Option ℕ) → Option ℕ
  child_of none = none
  child_of (some child) = child

  abbrev pub go_on : State → Bool → Option ℕ → (State → ℕ → Result) → Result
  go_on s false child next = returns s none
  go_on s true none next = returns s none
  go_on s true (some child) next = next s child

  -- `get(path, create)` of a node, which is `client_node::get` or `tree_node::get` by its class; on fuel
  -- for the levels.
  unfoldable pub get : ℕ → State → ℕ → List ℕ → Bool → Result
  get zero s n path create = out_of_fuel
  get (suc fuel) s n path create =
      let below = strip path in
      let (name, rest) = next_level below in
      let (s', ok) = ensure_at s n name create (children s n name) in
      let deeper =
        go_on s' ok (child_of (children s' n name)) (λ t child. get fuel t child rest create) in
      let other = other_get s n path create in
      if not (is_client_node n)
      then returns other.0 other.1
      else if not (has_client s n)
      then returns s none
      else if is_self below
      then returns s (some n)
      else deeper
