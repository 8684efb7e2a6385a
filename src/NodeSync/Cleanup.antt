-- ===== src/NodeSync/Cleanup.antt =====
-- `cleanup_children`, which `stream_closed` calls: the loop that empties the map of tracked nodes. Who
-- owns a node, and which nodes are client nodes of this `node_sync` (with the id in them), is the tree's.
pub mod Faults
use treeipc.Base.{
  ℕ, zero, suc, ◌≡◌, refl, sym, ap, ◌∙◌, List, [], ◌∷◌, ◌++◌, false, Option, none, some, ◌==◌,
  ==_refl, if◌then◌else◌, arith, append_assoc, inl, inr, length, ltb, Bool-cases,
}
use treeipc.NodeSync.Tracking.{find-assign}
use treeipc.NodeSync.State.{Tracked, find, assign, erase, touch, is_node}

-- What the loop does with nodes, in order: a read of a node's name, `parent->detach(n)`, `delete cn`.
pub data Use : Type 0 where
  named : ℕ → Use
  detached : ℕ → ℕ → Use
  deleted : ℕ → Use

pub data Outcome : Type 0 where
  ended : List Use → Outcome
  null_pointer : Outcome
  out_of_fuel : Outcome

abbrev after_round : List Use → Outcome → Outcome
after_round uses (ended more) = ended (uses ++ more)
after_round uses null_pointer = null_pointer
after_round uses out_of_fuel = out_of_fuel

-- The map without its first entry: `tracked.erase(tracked.begin())`.
abbrev pub drop_first : Tracked → Tracked
drop_first [] = []
drop_first (e ∷ m) = m

-- `remove_client_node` of each of the ids in turn, whose message reads the map at the id.
unfoldable pub removed : List ℕ → Tracked → Tracked
removed [] m = m
removed (nid ∷ more) m = removed more (erase nid (touch nid m))

-- `get_root` is virtual: it may change the map. `below` has the ids of the client nodes of this `node_sync`
-- that the tree's destructor of a node deletes with it.
module _ (get_root : Tracked → Tracked × Option ℕ) (below : ℕ → List ℕ)
    (owner own_nid : ℕ → Option ℕ) where
  -- `parent->detach(n)`, where the node has an owner.
  abbrev detach_uses : ℕ → Option ℕ → List Use
  detach_uses n none = []
  detach_uses n (some p) = named n ∷ named p ∷ detached p n ∷ []

  -- The map after the end of a round on the node `n`. `delete cn` calls `remove_client_node` with the id in
  -- the node, and so do the destructors of what the tree deletes with it.
  abbrev rest_of : ℕ → Tracked → Option ℕ → Tracked
  rest_of n m none = drop_first m
  rest_of n m (some nid) = removed (nid ∷ below n) m

  abbrev end_uses : ℕ → Option ℕ → List Use
  end_uses n none = named n ∷ []
  end_uses n (some nid) = deleted n ∷ named n ∷ []

  abbrev round_by : ℕ → Tracked × Option ℕ → Tracked × List Use
  round_by n (m, root) = if is_node n root then (drop_first m, named n ∷ named n ∷ []) else (
    rest_of n m (own_nid n),
    named n ∷ (detach_uses n (owner n) ++ (named n ∷ end_uses n (own_nid n))),
  )

  -- A round on the map `m`, whose first entry is of the node `n`.
  unfoldable pub round : ℕ → Tracked → Tracked × List Use
  round n m = round_by n (get_root m)

  -- The loop, on fuel for its rounds. It stops when the map is empty.
  unfoldable pub cleanup : ℕ → Tracked → Outcome
  cleanup fuel [] = ended []
  cleanup zero ((k, v) ∷ m) = out_of_fuel
  cleanup (suc fuel) ((k, none) ∷ m) = null_pointer
  cleanup (suc fuel) ((k, some n) ∷ m) =
      let (m', uses) = round n ((k, some n) ∷ m) in after_round uses (cleanup fuel m')

  -- Client nodes are tracked under the id that they hold.
  abbrev pub IsKeyed : Tracked → Type 0
  IsKeyed [] = Unit {0}
  IsKeyed ((k, none) ∷ m) = IsKeyed m
  IsKeyed ((k, some n) ∷ m) = ((nid : ℕ) → own_nid n ≡ some nid → nid ≡ k) × IsKeyed m

  abbrev pub NoNull : Tracked → Type 0
  NoNull [] = Unit {0}
  NoNull ((k, none) ∷ m) = ⊥
  NoNull ((k, some n) ∷ m) = NoNull m

  -- The uses of all rounds, one for each entry.
  abbrev pub uses_of : Tracked → List Use
  uses_of [] = []
  uses_of ((k, none) ∷ m) = []
  uses_of ((k, some n) ∷ m) = (round n ((k, some n) ∷ m)).1 ++ uses_of m

  -- A `get_root` that is the one of `node_sync`, and nodes that are deleted alone.
  module _ (root : Option ℕ) (kept : (m : Tracked) → get_root m ≡ (m, root))
      (alone : (n : ℕ) → below n ≡ []) where
    -- A round takes the first entry off the map.
    rest-keyed :
        (k n : ℕ) (m : Tracked) (o : Option ℕ)
        → ((nid : ℕ) → o ≡ some nid → nid ≡ k)
        → rest_of n ((k, some n) ∷ m) o ≡ m
    unfolding touch find erase removed
    rest-keyed k n m none h = refl
    rest-keyed k n m (some nid) h = rw (alone n) (ground (arith, h nid refl))

    round-keyed :
        (k n : ℕ) (m : Tracked)
        → ((nid : ℕ) → own_nid n ≡ some nid → nid ≡ k)
        → (round n ((k, some n) ∷ m)).0 ≡ m
    unfolding round
    round-keyed k n m h =
        ap (λ p. (round_by n p).0) (kept ((k, some n) ∷ m))
        ∙ ground (arith, rest-keyed k n m (own_nid n) h)

    pub cleanup_ends :
        (m : Tracked) → IsKeyed m → NoNull m → cleanup (length m) m ≡ ended (uses_of m)
    unfolding cleanup
    cleanup_ends [] k n = refl
    cleanup_ends ((i, none) ∷ m) k n = absurd n
    cleanup_ends ((i, some v) ∷ m) k n = rw (round-keyed i v m k.0) (rw (cleanup_ends m k.1 n) refl)

    -- A client node of this `node_sync` other than the root is read again after it has been deleted.
    pub round_uses_deleted :
        (k n nid : ℕ) (m : Tracked)
        → is_node n root ≡ false
        → own_nid n ≡ some nid
        → (before : List Use) × ((round n ((k, some n) ∷ m)).1
            ≡ before ++ (deleted n ∷ named n ∷ []))
    unfolding round
    round_uses_deleted k n nid m r o = (
      named n ∷ (detach_uses n (owner n) ++ (named n ∷ [])),
      ap (λ p. (round_by n p).1) (kept ((k, some n) ∷ m))
          ∙ rw (r, o)
              (ap (◌∷◌ (named n)) (
                sym (
                  append_assoc (detach_uses n (owner n)) (named n ∷ [])
                    (deleted n ∷ named n ∷ [])))),
    )

    -- A null pointer in the map is read through.
    pub cleanup_null :
        (nid : ℕ) (m : Tracked)
        → IsKeyed m
        → find nid m ≡ some none
        → cleanup (length m) m ≡ null_pointer
    unfolding cleanup find
    cleanup_null nid [] k e = cc
    cleanup_null nid ((i, none) ∷ m) k e = refl
    cleanup_null nid ((i, some v) ∷ m) k e =
        rw (round-keyed i v m k.0) (rw (cleanup_null nid m k.1 (ground arith)) refl)

    IsKeyed-assign :
        (nid : ℕ) (m : Tracked) → find nid m ≡ none → IsKeyed m → IsKeyed (assign nid none m)
    unfolding assign find
    IsKeyed-assign nid [] f k = tt
    IsKeyed-assign nid ((i, none) ∷ m) f k = elim (Bool-cases (ltb nid i)) [
      | inl before ↦ rw before k
      | inr after ↦ elim (Bool-cases (i == nid)) [
        | inl same ↦ rw (after, same) k
        | inr other ↦ rw (after, other) (IsKeyed-assign nid m (ground arith) k)
      ]
    ]
    IsKeyed-assign nid ((i, some v) ∷ m) f k = elim (Bool-cases (ltb nid i)) [
      | inl before ↦ rw before k
      | inr after ↦ elim (Bool-cases (i == nid)) [
        | inl same ↦ rw (after, same) (k.1)
        | inr other ↦ rw (after, other) (k.0, IsKeyed-assign nid m (ground arith) k.1)
      ]
    ]

    pub cleanup-touch :
        (nid : ℕ) (m : Tracked)
        → IsKeyed m
        → find nid m ≡ none
        → cleanup (length (touch nid m)) (touch nid m) ≡ null_pointer
    unfolding touch
    cleanup-touch nid m k e = rw e (
        cleanup_null nid (assign nid none m) (IsKeyed-assign nid m e k)
          (find-assign nid nid none m ∙ rw (==_refl nid) refl))
