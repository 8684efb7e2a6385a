-- ===== src/NodeSync/Children.antt =====
-- `child_added`, and `cmd_child_added` on the other side: a node that appears below a tracked one.
pub mod Arrival
use treeipc.Base.{
  ℕ, ◌+◌, ◌<◌, ◌^◌, ◌≡◌, refl, sym, ap, ◌∙◌, List, [], ◌∷◌, ◌++◌, length, Bool, true, false, Option,
  none, some, ◌==◌, if◌then◌else◌, not, ◌>>=◌, arith, le_bytes, append_assoc, append-nil,
  length-append, length-le_bytes,
}
use treeipc.Package.{Package, get_nid, append, append_word, read_word}
use treeipc.Package.Commands.{cmd_child_added}
use treeipc.Package.Layout.{build, append-build, get_nid-build}
use treeipc.Package.Read.{read_word-at}
use treeipc.Package.Text.{
  size_of_int, append_string, read_string, append_string-build, read_string-at, encode_string,
  length-encode_string,
}
use treeipc.Generator.{Generator, Generated, generate}
use treeipc.NodeSync.State.{NodeSync, get_node, get_node_nid, do_track_as}
use treeipc.NodeSync.Wire.{header, header_lem}

-- The child that the tree tells of, by what is asked of it: whether it is a client node of this
-- `node_sync`, its name, its type (empty for no property), and whether the parent owns it.
pub record Child : Type 0 where
  pub node : ℕ
  pub is_own : Bool
  pub child_name : List ℕ
  pub child_type : List ℕ
  pub is_owned : Bool

abbrev pub bool_word : Bool → ℕ
bool_word true = 1
bool_word false = 0

unfoldable pub child_package : ℕ → ℕ → Child → Package
child_package parent_nid nid c =
    let pack = append_word 8 (header cmd_child_added parent_nid) nid in
    let pack = append_string (append_string pack c.child_name) c.child_type in
    append_word 1 pack (bool_word c.is_owned)

abbrev pub tell_child :
    ℕ → Child → Option (NodeSync × Option ℕ) → Option (NodeSync × Option Package)
tell_child parent_nid c none = none
tell_child parent_nid c (some (s, none)) = some (s, some (child_package parent_nid 0 c))
tell_child parent_nid c (some (s, some nid)) = some (s, some (child_package parent_nid nid c))

abbrev pub tell_parent :
    Package → Child → Option (NodeSync × Option ℕ) → Option (NodeSync × Option Package)
tell_parent rep c none = none
tell_parent rep c (some (s, none)) = some (s, none)
tell_parent rep c (some (s, some parent_nid)) =
    if c.is_own then some (s, none) else tell_child parent_nid c (get_node_nid s rep c.node true)

-- `child_added(p, n)`, where there is a device: the package that it writes, if it does. The first two
-- packages are for a client that has to ask for the ids of the parent and of the child.
unfoldable pub child_added :
    NodeSync → Package → Package → ℕ → Child → Option (NodeSync × Option Package)
child_added s rep rep' p c = tell_parent rep' c (get_node_nid s rep p true)

-- What `cmd_child_added` does to the tree, in order: a new client node at an address, with its kind and
-- the id set in it; its `subscribe_add_remove`; `attach` of a name and a node; `set_owner`.
pub data ChildEffect : Type 0 where
  makes : ℕ → Generated → ℕ → ChildEffect
  subscribes : ℕ → ChildEffect
  attaches : ℕ → List ℕ → ℕ → ChildEffect
  owns : ℕ → ℕ → ChildEffect

abbrev pub attach_child : ℕ → List ℕ → ℕ → Bool → List ChildEffect
attach_child parent name node true = attaches parent name node ∷ owns parent node ∷ []
attach_child parent name node false = attaches parent name node ∷ []

abbrev pub new_child :
    NodeSync → ℕ → ℕ → ℕ → List ℕ → Bool → Option Generated → NodeSync × List ChildEffect
new_child s address parent nid name is_parent none = (s, [])
new_child s address parent nid name is_parent (some kind) = (
  do_track_as s address nid,
  makes address kind nid ∷ subscribes nid ∷ attach_child parent name address is_parent,
)

abbrev pub place_child :
    NodeSync → ℕ → ℕ → ℕ → List ℕ → Bool → Option Generated → Option ℕ → NodeSync × List ChildEffect
place_child s address parent nid name is_parent made none =
    new_child s address parent nid name is_parent made
place_child s address parent nid name is_parent made (some found) =
    (s, attach_child parent name found is_parent)

abbrev pub below_parent :
    Generator → NodeSync → ℕ → Package → Option ℕ → Option (NodeSync × List ChildEffect)
below_parent g s address p none = some (s, [])
below_parent g s address p (some parent) = do
  nid ← read_word 8 p 0
  (name, pos) ← read_string p [] 8
  (type, pos) ← read_string p [] pos
  is_parent ← read_word 1 p (size_of_int pos)
  some (
      place_child s address parent nid name (not (is_parent == 0)) (generate g type)
        (get_node s nid))

-- `cmd_child_added`. A node that is generated gets the address `address`.
unfoldable pub cmd_child_added_handler :
    Generator → NodeSync → ℕ → Package → Option (NodeSync × List ChildEffect)
cmd_child_added_handler g s address p = do
  parent_nid ← get_nid p
  below_parent g s address p (get_node s parent_nid)
