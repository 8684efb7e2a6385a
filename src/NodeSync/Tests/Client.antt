-- ===== src/NodeSync/Tests/Client.antt =====
-- A client that fetches its root, and one with its own root whose stream opens.
use treeipc.Base.{
  ◌≡◌, refl, ℕ, [], ◌∷◌, ap, arith, true, false, none, some, if◌then◌else◌, bytes_eq,
}
use treeipc.Types.{int, index}
use treeipc.Types.Samples.{byte_names, utf_eight}
use treeipc.Package.{Package, empty}
use treeipc.Serializer.{init}
use treeipc.Generator.{Generator, new_generator, client_node_value}
use treeipc.Generator.Coverage.{generate_lem}
use treeipc.NodeSync.State.{NodeSync, get_node_nid, find_nid, do_track_as, new_node_sync, set_root}
use treeipc.NodeSync.Tree.{TreeApi}
use treeipc.NodeSync.Children.{
  Child, child_added, cmd_child_added_handler, makes, subscribes, attach_child,
}
use treeipc.NodeSync.Subscribe.{listens_node}
use treeipc.NodeSync.Process.{process_package, to_listeners}
use treeipc.NodeSync.Client.{keep_root, stream_opened, writes, listens_to}
use treeipc.NodeSync.Client.Opening.{stream_opened-child_added}
use treeipc.NodeSync.Tests.Samples.{seven, small_tree, rooted}

abbrev proxies : Generator
proxies = new_generator byte_names

-- A tree with the one node 0, which is found under `/`.
abbrev lone_root : TreeApi utf_eight
lone_root = record {
  Tree = ℕ;
  ls = λ t n. [];
  at = λ t n path. if bytes_eq path (b'/' ∷ []) then some 0 else none;
  property = λ t n. none;
}

slash_found : lone_root.at 0 0 (b'/' ∷ []) ≡ some 0
unfolding bytes_eq
slash_found = refl

root_given : get_node_nid rooted empty 0 true ≡ some (rooted, some 0)
unfolding get_node_nid find_nid
root_given = refl

abbrev int_child : Child
int_child = record {
  node = 1;
  is_own = false;
  child_name = 97 ∷ [];
  child_type = byte_names.name int;
  is_owned = true;
}

stream_opened-child_added_example :
    (server server' client : NodeSync) × (notice pack : Package) × (set_root
        (new_node_sync true)
        (some 0)
      ≡ some server)
    × (stream_opened (keep_root (new_node_sync false) (some 9))
        ≡ (client, writes notice ∷ listens_to 9 ∷ []))
    × (process_package utf_eight small_tree (init byte_names) proxies seven server empty 8 notice
        ≡ some (server, to_listeners (listens_node 0) ∷ []))
    × (child_added server empty empty 0 int_child ≡ some (server', some pack))
    × (cmd_child_added_handler proxies client 8 pack
        ≡ some (
          do_track_as client 8 1,
          makes 8 (client_node_value int) 1 ∷ subscribes 1 ∷ attach_child 9 (97 ∷ []) 8 true,
        ))
stream_opened-child_added_example =
    stream_opened-child_added utf_eight small_tree (init byte_names) proxies seven 0 9 8
      (client_node_value int) int_child refl (omega arith) (omega arith) (omega arith)
      ((generate_lem byte_names int (λ e. omega (arith, ap index e))).1)
