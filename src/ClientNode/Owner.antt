-- ===== src/ClientNode/Owner.antt =====
-- client_node.cpp, a client node and its `node_sync`: `attach`, `ls`, `subscribe_add_remove` and the
-- destructor. `remove` and `at` pass on what the tree's own do and return.
use treeipc.Base.{ℕ, List, [], ◌∷◌, Bool, true, false, Option, none, some, ◌==◌, if◌then◌else◌}
use treeipc.Package.{Package}
use treeipc.NodeSync.State.{NodeSync, remove_client_node}
use treeipc.NodeSync.Ls.{ls_response}
use treeipc.NodeSync.Subscribe
use treeipc.NodeSync.Attach
use treeipc.NodeSync.Attach.{cmd_attach, cmd_attach-attach}

-- What `client_node::attach` asks of the tree: whether `get_children` has a name, `tree_node::attach`,
-- `tree_node::remove`, for a client node its client (`some none` where that is null), and the property
-- type, or the empty name, and the own name of a node.
pub record Siblings : Type 1 where
  pub State : Type 0
  pub has_child : State → ℕ → List ℕ → Bool
  pub attach : State → ℕ → List ℕ → ℕ → Bool → State × Option ℕ
  pub remove : State → ℕ → List ℕ → State
  pub as_client_node : State → ℕ → Option (Option ℕ)
  pub type : State → ℕ → List ℕ
  pub name : State → ℕ → List ℕ

-- A client node: its address, its id, and its client, with the client's address.
pub record ClientNode : Type 0 where
  pub address : ℕ
  pub nid : ℕ
  pub cl : Option (ℕ × NodeSync)

-- The constructor, of the node at an address; `junk` is what the memory of `cl` held, which stays.
abbrev pub new_client_node : Option (ℕ × NodeSync) → ℕ → ℕ → ClientNode
new_client_node junk address nid = record { address = address; nid = nid; cl = junk }

unfoldable pub set_client : ClientNode → Option (ℕ × NodeSync) → ClientNode
set_client this c = record this { cl = c }

unfoldable pub set_nid : ClientNode → ℕ → ClientNode
set_nid this nid = record this { nid = nid }

abbrev pub is_of : ℕ → Option (Option ℕ) → Bool
is_of c none = false
is_of c (some none) = false
is_of c (some (some d)) = d == c

module _ (w : Siblings) where
  open w use {State, has_child, remove, as_client_node}

  -- The state of the tree, the client node, the packages that its client writes, and the result.
  pub record Attached : Type 0 where
    pub tree : State
    pub this : ClientNode
    pub written : List Package
    pub result : Option ℕ

  -- The end of `attach`, by what `cl->attach` returned.
  abbrev pub unless_failed : State → ClientNode → Package → List ℕ → Option ℕ → Bool → Attached
  unless_failed s this p name res true = record {
    tree = s;
    this = this;
    written = p ∷ [];
    result = none;
  }
  unless_failed s this p name res false = record {
    tree = remove s this.address name;
    this = this;
    written = p ∷ [];
    result = res;
  }

  abbrev pub after_attach :
      State → ClientNode → ℕ → List ℕ → Option ℕ → Option (NodeSync × Package) → Option Attached
  after_attach s this c name res none = none
  after_attach s this c name res (some (sync, p)) =
      some (unless_failed s (record this { cl = some (c, sync) }) p name res true)

  abbrev pub attach_by :
      State → ClientNode → Package → List ℕ → ℕ → Bool → Option (ℕ × NodeSync) → Option Attached
  attach_by s this rep name obj append none =
      some (record { tree = s; this = this; written = []; result = none })
  attach_by s this rep name obj append (some (c, sync)) =
      let (s, res) = w.attach s this.address name obj append in
      if is_of c (as_client_node s obj)
      then some (record { tree = s; this = this; written = []; result = res })
      else after_attach s this c name res
          (Attach.attach sync rep this.nid obj (w.type s obj) (w.name s obj))

  abbrev pub attach_object :
      State → ClientNode → Package → List ℕ → Option ℕ → Bool → Option Attached
  attach_object s this rep name none append =
      some (record { tree = s; this = this; written = []; result = none })
  attach_object s this rep name (some obj) append =
      if has_child s this.address name
      then some (record { tree = s; this = this; written = []; result = some obj })
      else attach_by s this rep name obj append this.cl

  -- `attach(name, obj, append)`. `rep` is for a client that has to ask for the node's id.
  unfoldable pub attach : State → ClientNode → Package → List ℕ → Option ℕ → Bool → Option Attached
  attach s this rep name obj append = attach_object s this rep name obj append

-- `ls`: `resp` is the response that `node_sync::ls` gets, where there is a client.
abbrev pub names_from : Option (ℕ × NodeSync) → Package → Option (List (List ℕ))
names_from none resp = some []
names_from (some c) resp = ls_response resp

unfoldable pub ls : ClientNode → Package → Option (List (List ℕ))
ls this resp = names_from this.cl resp

abbrev pub subscribe_by : Option (ℕ × NodeSync) → ℕ → List Package
subscribe_by none nid = []
subscribe_by (some c) nid = Subscribe.subscribe_add_remove nid ∷ []

-- `subscribe_add_remove`: the package that is written, if there is a client.
unfoldable pub subscribe_add_remove : ClientNode → List Package
subscribe_add_remove this = subscribe_by this.cl this.nid

abbrev pub forget : ℕ → Option (ℕ × NodeSync) → Option (ℕ × NodeSync)
forget nid none = none
forget nid (some (c, sync)) = some (c, remove_client_node sync nid)

-- The destructor: the client, without the node.
unfoldable pub delete_client_node : ClientNode → Option (ℕ × NodeSync)
delete_client_node this = forget this.nid this.cl

-- `at` and `remove`, by `tree_node::at` and `tree_node::remove`.
module _ {State : Type 0} (tree_at : State → ℕ → List ℕ → Option ℕ) where
  unfoldable pub at : State → ClientNode → List ℕ → Option ℕ
  at s this path = tree_at s this.address path

module _ {State : Type 0} (tree_remove : State → ℕ → List ℕ → Bool → State × ℕ) where
  unfoldable pub remove_path : State → ClientNode → List ℕ → Bool → State × ℕ
  remove_path s this path recursive = tree_remove s this.address path recursive
