-- ===== src/ClientNode/Tests/Owner.antt =====
-- A node put below the client node 3 of the client at the address 20.
use treeipc.Base.{◌≡◌, refl, [], ◌∷◌, List, ℕ, ap, arith, true, false, none, some}
use treeipc.Types.{int, index}
use treeipc.Types.Samples.{byte_names}
use treeipc.Package.{Package, empty}
use treeipc.Generator.{Generator, new_generator, client_node_value}
use treeipc.Generator.Coverage.{generate_lem}
use treeipc.NodeSync.State.{
  NodeSync, find, get_node_nid, find_nid, do_track, do_track_as, generate_nid, assign,
  new_node_sync,
}
use treeipc.NodeSync.Children.{makes, subscribes, attaches}
use treeipc.NodeSync.Attach.{cmd_attach}
use treeipc.NodeSync.Tracking.{tracking}
use treeipc.ClientNode.Owner.{Siblings, ClientNode, attach}
use treeipc.ClientNode.Attaching.{attach-cmd_attach}

-- A tree that has no name below any node, and whose nodes are `a`, an int each.
abbrev bare_tree : Siblings
bare_tree = record {
  State = List ℕ;
  has_child = λ s n name. false;
  attach = λ s n name obj append. (obj ∷ s, some obj);
  remove = λ s n name. s;
  as_client_node = λ s n. none;
  type = λ s n. byte_names.name int;
  name = λ s n. 97 ∷ [];
}

abbrev proxies : Generator
proxies = new_generator byte_names

-- A `node_sync` that gives ids itself, and one that tracks the node 9 under 5.
abbrev giving : NodeSync
giving = new_node_sync true

abbrev with_five : NodeSync
with_five = record (new_node_sync false) { tracked = (5, some 9) ∷ [] }

abbrev three : ClientNode
three = record { address = 3; nid = 5; cl = some (20, giving) }

given : get_node_nid giving empty 6 true ≡ some (tracking giving 6, some 0)
unfolding get_node_nid do_track generate_nid do_track_as assign find_nid
given = refl

held : find 5 with_five.tracked ≡ some (some 9)
unfolding find
held = refl

attach-cmd_attach_example :
    (p : Package) × (attach bare_tree [] three empty (97 ∷ []) (some 6) true
      ≡ some (record {
        tree = 6 ∷ [];
        this = record three { cl = some (20, tracking giving 6) };
        written = p ∷ [];
        result = none;
      }))
    × (cmd_attach proxies with_five 8 p
        ≡ some (
          do_track_as with_five 8 0,
          makes 8 (client_node_value int) 0 ∷ attaches 9 (97 ∷ []) 8 ∷ subscribes 0 ∷ [],
        ))
attach-cmd_attach_example =
    attach-cmd_attach bare_tree [] (6 ∷ []) three empty (97 ∷ []) 6 true giving (tracking giving 6)
      with_five 20 0 9 8 (some 6) proxies (client_node_value int) refl refl refl refl given
      (omega arith) (omega arith) (omega arith) (omega arith) held
      ((generate_lem byte_names int (λ e. omega (arith, ap index e))).1)
