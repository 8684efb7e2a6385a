-- ===== src/ClientNode/Tests/Lifetime.antt =====
-- A node that is fetched twice under the id 5.
use treeipc.Base.{◌≡◌, false, ◌∷◌, [], none, some, arith}
use treeipc.Types.{int}
use treeipc.Generator.{client_node_value}
use treeipc.NodeSync.State.{NodeSync, new_node_sync}
use treeipc.NodeSync.At.{fetched, Fetched}
use treeipc.NodeSync.Registry.{registry}
use treeipc.ClientNode.Owner.{delete_client_node}
use treeipc.ClientNode.Lifetime.{fetched_node, delete-fetched_twice}

abbrev with_root : NodeSync
with_root = record (new_node_sync false) { tracked = (0, some 9) ∷ [] }

delete-fetched_twice_example :
    (one both after : NodeSync) × (f g : Fetched) × (fetched with_root 20 5
        (some (client_node_value int))
      ≡ (one, some f))
    × (fetched one 21 5 (some (client_node_value int)) ≡ (both, some g))
    × (registry both 5 ≡ some (some 21))
    × (delete_client_node (fetched_node none 3 both f) ≡ some (3, after))
    × (registry after 5 ≡ none)
delete-fetched_twice_example =
    delete-fetched_twice none with_root 3 20 21 5 (client_node_value int) (omega arith, tt)
