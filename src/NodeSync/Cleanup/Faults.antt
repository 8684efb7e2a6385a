-- ===== src/NodeSync/Cleanup/Faults.antt =====
-- A set of an unknown id, and the end of the stream after it.
use treeipc.Base.{ℕ, ◌<◌, ◌^◌, ◌≡◌, List, [], length, Option, none, some}
use treeipc.Types.{TypeNames, QtText}
use treeipc.Package.{append}
use treeipc.Package.Commands.{cmd_prop_set_value}
use treeipc.Serializer.{init}
use treeipc.NodeSync.State.{NodeSync, Tracked, find, touch}
use treeipc.NodeSync.Wire.{header}
use treeipc.NodeSync.Tree.{TreeApi}
use treeipc.NodeSync.Values.{cmd_prop_value}
use treeipc.NodeSync.Values.Sync.{cmd_prop_value_unknown}
use treeipc.NodeSync.Cleanup.{cleanup, null_pointer, IsKeyed, cleanup-touch}

module _ (get_root : Tracked → Tracked × Option ℕ) (below : ℕ → List ℕ)
    (owner own_nid : ℕ → Option ℕ) where
  -- A `CMD_PROP_SET_VALUE` for an id that is not tracked changes no property, and `cleanup_children` in the
  -- state that it leaves reads through a null pointer. `get_root` is the one of `node_sync`, client
  -- nodes are tracked under their own ids, and the deletion of one deletes no other.
  pub cleanup-cmd_prop_value :
      (names : TypeNames) (qt : QtText) (api : TreeApi qt) (tree : TreeApi.Tree api) (s : NodeSync)
      (root : Option ℕ) (nid : ℕ) (buf : List ℕ)
      → ((m : Tracked) → get_root m ≡ (m, root))
      → ((n : ℕ) → below n ≡ [])
      → IsKeyed get_root below owner own_nid s.tracked
      → nid < 2 ^ 64
      → find nid s.tracked ≡ none
      → (s' : NodeSync) × (cmd_prop_value qt api
            (init names)
            tree
            s
            (append (header cmd_prop_set_value nid) buf)
          ≡ some (s', []))
        × (cleanup get_root below owner own_nid (length s'.tracked) s'.tracked ≡ null_pointer)
  cleanup-cmd_prop_value names qt api tree s root nid buf kept alone keyed small free = (
    record s { tracked = touch nid s.tracked },
    (cmd_prop_value_unknown names qt api tree s nid buf small free).0,
    cleanup-touch get_root below owner own_nid root kept alone nid s.tracked keyed free,
  )
