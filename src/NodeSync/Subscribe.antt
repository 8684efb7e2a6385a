-- ===== src/NodeSync/Subscribe.antt =====
-- `subscribe`, `unsubscribe` and `subscribe_add_remove`, and the handlers of their notices.
use treeipc.Base.{ℕ, ◌≡◌, ap, ◌∙◌, List, [], ◌∷◌, Bool, true, false, Option, none, some, ◌>>=◌}
use treeipc.Types.{QtText}
use treeipc.Package.{Package, empty, set_nid, set_cmd, get_nid}
use treeipc.Package.Commands.{cmd_subscribe, cmd_unsubscribe, cmd_subscribe_add_remove}
use treeipc.Package.Layout.{build, empty_lem, set_nid-build, set_cmd-build}
use treeipc.NodeSync.State.{NodeSync, get_node, find}
use treeipc.NodeSync.Tree.{TreeApi, PropertyNode}

-- The notices, which go out by `dev->write`.
unfoldable pub subscribe : ℕ → Package
subscribe nid = set_cmd cmd_subscribe (set_nid nid empty)

unfoldable pub subscribe_add_remove : ℕ → Package
subscribe_add_remove nid = set_cmd cmd_subscribe_add_remove (set_nid nid empty)

unfoldable pub unsubscribe : ℕ → Package
unsubscribe nid = set_cmd cmd_unsubscribe (set_nid nid empty)

pub notice-build : (cmd nid : ℕ) → set_cmd cmd (set_nid nid empty) ≡ build cmd nid []
notice-build cmd nid =
    ap (λ p. set_cmd cmd (set_nid nid p)) empty_lem
    ∙ ap (set_cmd cmd) (set_nid-build nid 0 0 [])
    ∙ set_cmd-build cmd 0 nid []

-- What the handlers do: this `node_sync` becomes a listener of the property, or of the node, under a
-- pointer, or no listener of the property any more.
pub data Listening : Type 0 where
  listens leaves listens_node : ℕ → Listening

module _ (qt : QtText) (api : TreeApi qt) where
  open api use {Tree}

  abbrev pub subscribe_property : ℕ → Bool → Option (PropertyNode qt) → List Listening
  subscribe_property n erase none = []
  subscribe_property n true (some p) = leaves n ∷ []
  subscribe_property n false (some p) = listens n ∷ []

  abbrev pub subscribe_at : Tree → Bool → Option ℕ → List Listening
  subscribe_at tree erase none = []
  subscribe_at tree erase (some n) = subscribe_property n erase (api.property tree n)

  -- `cmd_subscribe(p, erase)`
  unfoldable pub cmd_subscribe_handler : Tree → NodeSync → Package → Bool → Option (List Listening)
  cmd_subscribe_handler tree s p erase = do
    nid ← get_nid p
    some (subscribe_at tree erase (get_node s nid))

-- A null pointer in the map is called through.
abbrev pub subscribe_node : Bool → Option (Option ℕ) → Option (List Listening)
subscribe_node erase none = some []
subscribe_node true (some v) = some []
subscribe_node false (some none) = none
subscribe_node false (some (some n)) = some (listens_node n ∷ [])

-- `cmd_subscribe_add_remove(p, erase)`
unfoldable pub cmd_subscribe_add_remove_handler :
    NodeSync → Package → Bool → Option (List Listening)
cmd_subscribe_add_remove_handler s p erase = do
  nid ← get_nid p
  subscribe_node erase (find nid s.tracked)
