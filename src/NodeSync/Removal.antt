-- ===== src/NodeSync/Removal.antt =====
-- `remove_client_node`: a client node that is deleted is tracked no more.
use treeipc.Base.{
  ℕ, suc, ◌≤◌, ◌≡◌, refl, ◌∙◌, [], ◌∷◌, Option, none, some, ◌==◌, if◌then◌else◌, arith, inl, inr,
  Bool-cases,
}
use treeipc.NodeSync.State.{NodeSync, Tracked, find, erase, touch, touch_at, remove_client_node}
use treeipc.NodeSync.Tracking.{IsAscending, IsAscending-assign, find-assign, find-below}

pub find-erase :
    (lo nid j : ℕ) (m : Tracked)
    → IsAscending lo m
    → find j (erase nid m) ≡ (if nid == j then none else find j m)
unfolding find erase
find-erase lo nid j [] a = ground arith
find-erase lo nid j ((k, v) ∷ m) a =
    ground (arith, find-erase (suc k) nid j m a.1, find-below (suc k) j m a.1)

IsAscending-weaken : (lo hi : ℕ) (m : Tracked) → lo ≤ hi → IsAscending hi m → IsAscending lo m
IsAscending-weaken lo hi [] h a = tt
IsAscending-weaken lo hi ((k, v) ∷ m) h a = (omega arith, a.1)

pub IsAscending-erase : (lo nid : ℕ) (m : Tracked) → IsAscending lo m → IsAscending lo (erase nid m)
unfolding erase
IsAscending-erase lo nid [] a = tt
IsAscending-erase lo nid ((k, v) ∷ m) a = elim (Bool-cases (k == nid)) [
  | inl same ↦ rw same (IsAscending-weaken lo (suc k) m (omega arith) a.1)
  | inr other ↦ rw other (a.0, IsAscending-erase (suc k) nid m a.1)
]

module _ (nid : ℕ) (m : Tracked) (a : IsAscending 0 m) where
  IsAscending-touch_at : (o : Option (Option ℕ)) → IsAscending 0 (touch_at nid m o)
  IsAscending-touch_at none = IsAscending-assign 0 nid none m (omega arith) a
  IsAscending-touch_at (some v) = a

  find-touch_at :
      (j : ℕ) (o : Option (Option ℕ))
      → (if nid == j then none else find j (touch_at nid m o))
        ≡ (if nid == j then none else find j m)
  find-touch_at j none = ground (arith, find-assign nid j none m)
  find-touch_at j (some v) = refl

-- After `remove_client_node` of an id, tracked or not, the id leads to no node and every other id to
-- where it led; the rest of the state stays, and the map stays in order.
pub remove_client_node_lem :
    (s : NodeSync) (nid j : ℕ)
    → IsAscending 0 s.tracked
    → (find j (remove_client_node s nid).tracked ≡ (if nid == j then none else find j s.tracked))
      × IsAscending 0 (remove_client_node s nid).tracked
      × (record (remove_client_node s nid) { tracked = s.tracked } ≡ s)
unfolding remove_client_node touch
remove_client_node_lem s nid j a =
    let o = find nid s.tracked in
    let a' = IsAscending-touch_at nid s.tracked a o in
    (
      find-erase 0 nid j (touch_at nid s.tracked o) a' ∙ find-touch_at nid s.tracked a j o,
      IsAscending-erase 0 nid (touch_at nid s.tracked o) a',
      refl,
    )
