-- ===== src/NodeSync/Registry.antt =====
-- The map of tracked nodes seen as a function from ids to pointers, and what follows for its operations:
-- the order in which ids were given is forgotten.
use treeipc.Base.{
  ℕ, suc, ◌≡◌, ◌≢◌, refl, ap, ◌∙◌, [], ◌∷◌, Option, none, some, ◌==◌, if◌then◌else◌, arith,
}
use treeipc.NodeSync.State.{NodeSync, Tracked, find, do_track_as, remove_client_node}
use treeipc.NodeSync.Tracking.{IsAscending, IsAscending-assign, find-assign, find-below}
use treeipc.NodeSync.Removal.{remove_client_node_lem}

-- What the other side can learn of the map: the pointer under each id.
abbrev pub Registry : Type 0
Registry = ℕ → Option (Option ℕ)

abbrev pub registry : NodeSync → Registry
registry s nid = find nid s.tracked

abbrev pub put : ℕ → Option ℕ → Registry → Registry
put nid n r j = if nid == j then some n else r j

abbrev pub remove : ℕ → Registry → Registry
remove nid r j = if nid == j then none else r j

module _ (k k' : ℕ) (v v' : Option ℕ) (m m' : Tracked) where
  -- Two maps that start with the same id and answer alike.
  same_head :
      IsAscending (suc k) m
      → IsAscending (suc k') m'
      → ((j : ℕ) → find j ((k, v) ∷ m) ≡ find j ((k', v') ∷ m'))
      → (k ≡ k') × (v ≡ v')
  unfolding find
  same_head a a' h =
      ground (arith, h k, h k', find-below (suc k) k' m a, find-below (suc k') k m' a')

  same_tail :
      IsAscending (suc k) m
      → IsAscending (suc k') m'
      → k ≡ k'
      → ((j : ℕ) → find j ((k, v) ∷ m) ≡ find j ((k', v') ∷ m'))
      → (j : ℕ) → find j m ≡ find j m'
  unfolding find
  same_tail a a' e h j = ground (arith, h j, find-below (suc k) j m a, find-below (suc k') j m' a')

-- A map in the order of its ids is determined by what it answers.
pub Tracked-ext :
    (lo lo' : ℕ) (m m' : Tracked)
    → IsAscending lo m
    → IsAscending lo' m'
    → ((j : ℕ) → find j m ≡ find j m')
    → m ≡ m'
unfolding find
Tracked-ext lo lo' [] [] a a' h = refl
Tracked-ext lo lo' [] ((k, v) ∷ m') a a' h = ground (arith, h k)
Tracked-ext lo lo' ((k, v) ∷ m) [] a a' h = ground (arith, h k)
Tracked-ext lo lo' ((k, v) ∷ m) ((k', v') ∷ m') a a' h =
    let (e, f) = same_head k k' v v' m m' a.1 a'.1 h in
    let rest = Tracked-ext (suc k) (suc k') m m' a.1 a'.1 (same_tail k k' v v' m m' a.1 a'.1 e h) in
    rw (e, f, rest) refl

-- The map implements the function: `do_track` puts a pointer under its id and `remove_client_node` takes
-- one away, whatever stood there, every other id keeps its pointer, and the map stays in order.
pub registry-refines :
    (s : NodeSync) (n nid j : ℕ)
    → IsAscending 0 s.tracked
    → (registry (do_track_as s n nid) j ≡ put nid (some n) (registry s) j)
      × IsAscending 0 (do_track_as s n nid).tracked
      × (registry (remove_client_node s nid) j ≡ remove nid (registry s) j)
      × IsAscending 0 (remove_client_node s nid).tracked
unfolding do_track_as
registry-refines s n nid j a =
    let (answers, ascending, same) = remove_client_node_lem s nid j a in
    (
      find-assign nid j (some n) s.tracked,
      IsAscending-assign 0 nid (some n) s.tracked (omega arith) a,
      answers,
      ascending,
    )

-- Two states that agree but for their maps, whose maps are in order and answer alike, are equal.
state_ext :
    (s t : NodeSync)
    → IsAscending 0 s.tracked
    → IsAscending 0 t.tracked
    → record s { tracked = t.tracked } ≡ t
    → ((j : ℕ) → registry s j ≡ registry t j)
    → s ≡ t
state_ext s t a b same h =
    ap (λ m. record s { tracked = m }) (Tracked-ext 0 0 s.tracked t.tracked a b h) ∙ same

-- A client node that was tracked under a free id and is deleted again leaves no trace.
pub remove_client_node-do_track_as :
    (s : NodeSync) (n nid : ℕ)
    → IsAscending 0 s.tracked
    → find nid s.tracked ≡ none
    → remove_client_node (do_track_as s n nid) nid ≡ s
unfolding do_track_as remove_client_node
remove_client_node-do_track_as s n nid a free =
    let t = do_track_as s n nid in
    let b = (registry-refines s n nid nid a).1 in
    state_ext (remove_client_node t nid) s (registry-refines t n nid nid b).3 a refl (λ j.
      (registry-refines t n nid j b).2 ∙ ground (arith, (registry-refines s n nid j a).0, free))

-- Nodes that are tracked under different ids may be tracked in either order.
pub do_track_as_comm :
    (s : NodeSync) (n n' nid nid' : ℕ)
    → IsAscending 0 s.tracked
    → nid ≢ nid'
    → do_track_as (do_track_as s n nid) n' nid' ≡ do_track_as (do_track_as s n' nid') n nid
unfolding do_track_as
do_track_as_comm s n n' nid nid' a ne =
    let t = do_track_as s n nid in
    let u = do_track_as s n' nid' in
    let b = (registry-refines s n nid nid a).1 in
    let c = (registry-refines s n' nid' nid' a).1 in
    state_ext (do_track_as t n' nid') (do_track_as u n nid) (registry-refines t n' nid' nid' b).1
      (registry-refines u n nid nid c).1 refl
      (λ j. ground (
        arith,
        find-assign nid' j (some n') t.tracked,
        find-assign nid j (some n) u.tracked,
        find-assign nid j (some n) s.tracked,
        find-assign nid' j (some n') s.tracked,
      ))
