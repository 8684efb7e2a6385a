-- ===== src/NodeSync/Tests/Samples.antt =====
-- A tree of two nodes on a server that tracks its root, and later both.
use treeipc.Base.{◌≡◌, refl, [], ◌∷◌, true, false, none, some, ◌==◌, if◌then◌else◌, arith, bytes_eq}
use treeipc.Types.{int}
use treeipc.Types.Samples.{byte_names, utf_eight}
use treeipc.Serializer.{Value, object}
use treeipc.Serializer.RoundTrip.{property}
use treeipc.NodeSync.State.{
  NodeSync, find, get_node, do_track, do_track_as, generate_nid, new_node_sync, set_root, assign,
}
use treeipc.NodeSync.Tracking.{IsServer, tracking}
use treeipc.NodeSync.Tree.{TreeApi}

abbrev pub seven : Value utf_eight
seven = object int (7 ∷ 0 ∷ 0 ∷ 0 ∷ [])

abbrev pub five : Value utf_eight
five = object int (5 ∷ 0 ∷ 0 ∷ 0 ∷ [])

-- A tree with the root 0 and below it the property 1, `a`, that holds the value given.
abbrev pub small_tree : TreeApi utf_eight
small_tree = record {
  Tree = Value utf_eight;
  ls = λ t n. if n == 0 then (97 ∷ []) ∷ [] else [];
  at = λ t n path. if n == 0 then (if bytes_eq path (97 ∷ []) then some 1 else none) else none;
  property = λ t n.
      if n == 1
      then some (record { property = property byte_names utf_eight t; fake = some false })
      else none;
}

-- The server that tracks its root under 0.
abbrev pub rooted : NodeSync
rooted = record {
  tracked = (0, some 0) ∷ [];
  current_nid = 1;
  root_node = some 0;
  is_server = true;
}

rooted-set_root : set_root (new_node_sync true) (some 0) ≡ some rooted
unfolding set_root do_track generate_nid do_track_as assign
rooted-set_root = refl

pub rooted-IsServer : IsServer rooted
rooted-IsServer = record {
  server = refl;
  ascending = (omega arith, tt);
  below = (omega arith, tt);
  room = omega arith;
}

-- The server once the property 1 has the id 1.
abbrev pub serving : NodeSync
serving = tracking rooted 1

pub unknown_entry : find 4 rooted.tracked ≡ none
unfolding find
unknown_entry = refl

pub root_found : get_node rooted 0 ≡ some 0
unfolding get_node find
root_found = refl

pub unknown_id : get_node rooted 4 ≡ none
unfolding get_node find
unknown_id = refl
