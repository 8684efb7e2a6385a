-- ===== src/NodeSync/Tests/Children.antt =====
-- A child of the root, and a client that asks for an id.
use treeipc.Base.{◌≡◌, refl, [], ◌∷◌, ◌++◌, arith, replicate, false, some}
use treeipc.Package.{Package, empty}
use treeipc.NodeSync.State.{NodeSync, generate_nid, new_node_sync}
use treeipc.NodeSync.Notify.{
  process_notification, generate_nid_request, replied, generate_nid-process_notification,
}
use treeipc.NodeSync.Tests.Samples.{rooted}

-- A client that tracks its own root, the node 9, under 0.
abbrev with_root : NodeSync
with_root = record (new_node_sync false) { tracked = (0, some 9) ∷ [] }

generate_nid-process_notification_example :
    (resp : Package) × (process_notification rooted empty
        (some (generate_nid_request ++ replicate 9 0))
      ≡ some (record rooted { current_nid = 2 }, replied resp))
    × (generate_nid with_root (resp ++ replicate 18 0) ≡ some (with_root, 1))
generate_nid-process_notification_example =
    generate_nid-process_notification rooted with_root empty refl refl (omega arith)
