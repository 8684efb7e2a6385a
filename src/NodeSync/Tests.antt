-- ===== src/NodeSync/Tests.antt =====
-- The ids that a server gives, and the end of a connection.
mod Messages
mod Children
mod Process
mod Client
mod Locks
pub mod Samples
use treeipc.Base.{
  ℕ, ◌+◌, ◌<◌, ◌^◌, ◌≡◌, ◌≢◌, refl, List, [], ◌∷◌, ◌++◌, length, replicate, Bool, true, false,
  Option, none, some, ◌==◌, if◌then◌else◌, arith, ap, inl, inr, bytes_eq, le_bytes,
}
use treeipc.Types.{int, index}
use treeipc.Types.Samples.{byte_names, utf_eight}
use treeipc.Package.{Package, empty, append}
use treeipc.Package.Commands.{cmd_prop_set_value}
use treeipc.NodeSync.Wire.{header}
use treeipc.Serializer.{Value, object, init}
use treeipc.Serializer.RoundTrip.{property, store}
use treeipc.Generator.{new_generator, client_node_value, generate}
use treeipc.Generator.Coverage.{generate_lem}
use treeipc.NodeSync.State.{
  NodeSync, Tracked, find, find_nid, get_node, get_node_nid, do_track, do_track_as, generate_nid,
  touch, new_node_sync, set_root, assign,
}
use treeipc.NodeSync.Tracking.{
  IsServer, Gives, get_nid-Gives, get_nid_again, get_nid_distinct, tracking,
}
use treeipc.NodeSync.Cleanup.Faults.{cleanup-cmd_prop_value}
use treeipc.NodeSync.Cleanup.{
  round, cleanup, null_pointer, Use, named, deleted, cleanup-touch, round_uses_deleted, IsKeyed,
}
use treeipc.NodeSync.Tree.{TreeApi, PropertyNode}
use treeipc.NodeSync.At.{
  cmd_at_handler, fetch_request, fetch_response, Fetched, fetch-cmd_at, fetch-cmd_at_error,
}
use treeipc.NodeSync.Ls.{cmd_ls_handler, ls_request, ls_response, ls-cmd_ls, ls-cmd_ls_error}
use treeipc.NodeSync.Values.{
  Effect, stores, notify_change, updated, process_prop_value, update_request, cmd_get_prop,
  update_response, request_prop_set_value, cmd_prop_value,
}
use treeipc.NodeSync.Values.Sync.{
  process_prop_value-updated, update_response-cmd_get_prop, cmd_prop_value-request,
  cmd_prop_value_unknown,
}
use treeipc.NodeSync.Tests.Samples.{
  seven, five, small_tree, rooted, serving, rooted-IsServer, root_found, unknown_id, unknown_entry,
}

get_nid-Gives_example : Gives rooted 5 (get_node_nid rooted empty 5 true)
get_nid-Gives_example = get_nid-Gives rooted empty 5 rooted-IsServer (omega arith)

five_tracked : get_node_nid rooted empty 5 true ≡ some (tracking rooted 5, some 1)
unfolding get_node_nid do_track generate_nid do_track_as assign find_nid
five_tracked = refl

-- Node 1 is a client node with the id 1, below its owner 0, the root.
abbrev owners : ℕ → Option ℕ
owners n = if n == 1 then some 0 else none

abbrev ids : ℕ → Option ℕ
ids n = if n == 1 then some 1 else none

abbrev two_nodes : Tracked
two_nodes = (0, some 0) ∷ (1, some 1) ∷ []

abbrev own_root : Tracked → Tracked × Option ℕ
own_root m = (m, some 0)

abbrev none_below : ℕ → List ℕ
none_below n = []

two_nodes-IsKeyed : IsKeyed own_root none_below owners ids two_nodes
two_nodes-IsKeyed = (λ nid e. ground arith, (λ nid e. ground arith, tt))

abbrev two_tracked : NodeSync
two_tracked = record rooted { tracked = two_nodes }

seven_free : find 7 two_nodes ≡ none
unfolding find
seven_free = refl

cleanup-cmd_prop_value_example :
    (s : NodeSync) × (cmd_prop_value utf_eight small_tree
        (init byte_names)
        seven
        two_tracked
        (append (header cmd_prop_set_value 7) (5 ∷ []))
      ≡ some (s, []))
    × (cleanup own_root none_below owners ids (length s.tracked) s.tracked ≡ null_pointer)
cleanup-cmd_prop_value_example =
    cleanup-cmd_prop_value own_root none_below owners ids byte_names utf_eight small_tree seven
      two_tracked (some 0) 7 (5 ∷ []) (λ m. refl) (λ n. refl) two_nodes-IsKeyed (omega arith)
      seven_free
