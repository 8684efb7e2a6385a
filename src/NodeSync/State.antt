-- ===== src/NodeSync/State.antt =====
-- The fields of `node_sync` that its operations change, and the map of tracked nodes. Nodes are known by
-- numbers, as pointers are.
use treeipc.Base.{
  ℕ, ◌+◌, ◌%◌, ◌^◌, List, [], ◌∷◌, Option, none, some, Bool, true, false, ◌==◌, ltb, if◌then◌else◌,
  ◌>>=◌,
}
use treeipc.Package.{Package, empty, get_nid}

-- `std::map<nid_t, tree_node *>`, in ascending order of the ids; `none` is a null pointer.
abbrev pub Tracked : Type 0
Tracked = List (ℕ × Option ℕ)

-- `tracked.find(nid)`: the pointer stored there, if anything is.
unfoldable pub find : ℕ → Tracked → Option (Option ℕ)
find nid [] = none
find nid ((k, v) ∷ m) = if k == nid then some v else find nid m

-- `tracked[nid] = n`
unfoldable pub assign : ℕ → Option ℕ → Tracked → Tracked
assign nid n [] = (nid, n) ∷ []
assign nid n ((k, v) ∷ m) =
    if ltb nid k
    then (nid, n) ∷ (k, v) ∷ m
    else if k == nid
    then (k, n) ∷ m
    else (k, v) ∷ assign nid n m

-- `tracked.erase(nid)`
unfoldable pub erase : ℕ → Tracked → Tracked
erase nid [] = []
erase nid ((k, v) ∷ m) = if k == nid then m else (k, v) ∷ erase nid m

abbrev pub is_node : ℕ → Option ℕ → Bool
is_node n none = false
is_node n (some m) = m == n

-- The loop of `get_nid`: the first id under which a node stands.
unfoldable pub find_nid : ℕ → Tracked → Option ℕ
find_nid n [] = none
find_nid n ((k, v) ∷ m) = if is_node n v then some k else find_nid n m

pub record NodeSync : Type 0 where
  pub tracked : Tracked
  pub current_nid : ℕ
  pub root_node : Option ℕ
  pub is_server : Bool

-- `get_node`: null where nothing, or a null pointer, stands under the id.
abbrev pub pointer : Option (Option ℕ) → Option ℕ
pointer none = none
pointer (some n) = n

unfoldable pub get_node : NodeSync → ℕ → Option ℕ
get_node s nid = pointer (find nid s.tracked)

-- `generate_nid`. A client asks the server: `rep` is what its package holds after `dev->send`, which
-- leaves it as it was constructed where it fails.
unfoldable pub generate_nid : NodeSync → Package → Option (NodeSync × ℕ)
generate_nid s rep =
    if s.is_server
    then some (record s { current_nid = (s.current_nid + 1) % 2 ^ 64 }, s.current_nid)
    else (do nid ← get_nid rep; some (s, nid))

-- `do_track(n, nid)`
unfoldable pub do_track_as : NodeSync → ℕ → ℕ → NodeSync
do_track_as s n nid = record s { tracked = assign nid (some n) s.tracked }

-- `do_track(n)`
unfoldable pub do_track : NodeSync → Package → ℕ → Option (NodeSync × ℕ)
do_track s rep n = do (s, nid) ← generate_nid s rep; some (do_track_as s n nid, nid)

abbrev track_unless_found : NodeSync → Package → ℕ → Bool → Option ℕ → Option (NodeSync × Option ℕ)
track_unless_found s rep n track (some nid) = some (s, some nid)
track_unless_found s rep n true none = do (s, nid) ← do_track s rep n; some (s, some nid)
track_unless_found s rep n false none = some (s, none)

-- `get_nid(n, nid, track)`: the id, or `none` where it returns false.
unfoldable pub get_node_nid : NodeSync → Package → ℕ → Bool → Option (NodeSync × Option ℕ)
get_node_nid s rep n track = track_unless_found s rep n track (find_nid n s.tracked)

-- `tracked[nid]` where it is only read: a null pointer is inserted under a new id.
abbrev pub touch_at : ℕ → Tracked → Option (Option ℕ) → Tracked
touch_at nid m none = assign nid none m
touch_at nid m (some v) = m

unfoldable pub touch : ℕ → Tracked → Tracked
touch nid m = touch_at nid m (find nid m)

-- `remove_client_node`, whose message reads `tracked[nid]`.
unfoldable pub remove_client_node : NodeSync → ℕ → NodeSync
remove_client_node s nid = record s { tracked = erase nid (touch nid s.tracked) }

-- `server::set_root`: a root that is not null is tracked under the next id.
unfoldable pub set_root : NodeSync → Option ℕ → Option NodeSync
set_root s none = some (record s { root_node = none })
set_root s (some root) = do
  (s, nid) ← do_track (record s { root_node = some root }) empty root
  some s

-- The state of a new `node_sync`.
abbrev pub new_node_sync : Bool → NodeSync
new_node_sync is_server = record {
  tracked = [];
  current_nid = 0;
  root_node = none;
  is_server = is_server;
}
