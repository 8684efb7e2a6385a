-- ===== src/NodeSync/Tracking.antt =====
-- Node ids: `get_nid` and `do_track` give each node of a server one id, and each id one node.
use treeipc.Base.{
  ℕ, suc, ◌+◌, ◌≤◌, ◌<◌, ◌^◌, ◌≡◌, ◌≢◌, refl, ap, [], ◌∷◌, true, Option, none, some, ◌==◌,
  if◌then◌else◌, ◌⊎◌, arith, Option-cases, inl, inr,
}
use treeipc.Package.{Package}
use treeipc.NodeSync.State.{
  Tracked, NodeSync, find, assign, find_nid, get_node, pointer, generate_nid, do_track, do_track_as,
  get_node_nid,
}

pub find-assign :
    (k j : ℕ) (v : Option ℕ) (m : Tracked)
    → find j (assign k v m) ≡ (if k == j then some v else find j m)
unfolding find assign
find-assign k j v [] = refl
find-assign k j v ((i, w) ∷ m) = ground (arith, find-assign k j v m)

-- The ids ascend, from `lo` on.
abbrev pub IsAscending : ℕ → Tracked → Type 0
IsAscending lo [] = Unit {0}
IsAscending lo ((k, v) ∷ m) = (lo ≤ k) × IsAscending (suc k) m

pub IsAscending-assign :
    (lo k : ℕ) (v : Option ℕ) (m : Tracked)
    → lo ≤ k
    → IsAscending lo m
    → IsAscending lo (assign k v m)
unfolding assign
IsAscending-assign lo k v [] h a = (h, tt)
IsAscending-assign lo k v ((i, w) ∷ m) h a =
    ground (arith, λ (p : suc i ≤ k). IsAscending-assign (suc i) k v m p a.1)

pub find-below : (lo j : ℕ) (m : Tracked) → IsAscending lo m → j < lo → find j m ≡ none
unfolding find
find-below lo j [] a h = refl
find-below lo j ((k, v) ∷ m) a h = ground (arith, find-below (suc k) j m a.1)

-- The id that the loop of `get_nid` finds is one of the node.
find_nid-some :
    (lo n k : ℕ) (m : Tracked) → IsAscending lo m → find_nid n m ≡ some k → find k m ≡ some (some n)
unfolding find find_nid
find_nid-some lo n k [] a e = cc
find_nid-some lo n k ((i, none) ∷ m) a e =
    ground (arith, find_nid-some (suc i) n k m a.1, find-below (suc i) k m a.1)
find_nid-some lo n k ((i, some w) ∷ m) a e =
    ground (arith, find_nid-some (suc i) n k m a.1, find-below (suc i) k m a.1)

-- An entry of a node is found, at some id.
find_nid-ne-none : (n k : ℕ) (m : Tracked) → find k m ≡ some (some n) → find_nid n m ≢ none
unfolding find find_nid
find_nid-ne-none n k [] e h = cc
find_nid-ne-none n k ((i, v) ∷ m) e h = ground (arith, find_nid-ne-none n k m)

abbrev AllBelow : ℕ → Tracked → Type 0
AllBelow b [] = Unit {0}
AllBelow b ((k, v) ∷ m) = (k < b) × AllBelow b m

AllBelow-mono : (b c : ℕ) (m : Tracked) → b ≤ c → AllBelow b m → AllBelow c m
AllBelow-mono b c [] h a = tt
AllBelow-mono b c ((k, v) ∷ m) h a = (omega arith, AllBelow-mono b c m h a.1)

AllBelow-assign :
    (b c k : ℕ) (v : Option ℕ) (m : Tracked)
    → b ≤ c
    → k < c
    → AllBelow b m
    → AllBelow c (assign k v m)
unfolding assign
AllBelow-assign b c k v [] h p a = (p, tt)
AllBelow-assign b c k v ((i, w) ∷ m) h p a =
    ground (arith, AllBelow-assign b c k v m h p a.1, AllBelow-mono b c m h a.1)

find-AllBelow : (b j : ℕ) (m : Tracked) → AllBelow b m → b ≤ j → find j m ≡ none
unfolding find
find-AllBelow b j [] a h = refl
find-AllBelow b j ((k, v) ∷ m) a h = ground (arith, find-AllBelow b j m a.1)

-- A server that has given all its ids itself.
pub record IsServer (s : NodeSync) : Type 0 where
  pub server : s.is_server ≡ true
  pub ascending : IsAscending 0 s.tracked
  pub below : AllBelow s.current_nid s.tracked
  pub room : s.current_nid + 1 < 2 ^ 64

-- The state after a node has been given the next id.
abbrev pub tracking : NodeSync → ℕ → NodeSync
tracking s n = record s {
  tracked = assign s.current_nid (some n) s.tracked;
  current_nid = s.current_nid + 1;
}

module _ (s : NodeSync) (rep : Package) (n : ℕ) (h : IsServer s) where
  do_track-server : do_track s rep n ≡ some (tracking s n, s.current_nid)
  unfolding do_track generate_nid do_track_as
  do_track-server = ground (arith, h.server, h.room)

  tracking-IsServer : s.current_nid + 2 < 2 ^ 64 → IsServer (tracking s n)
  tracking-IsServer r = record {
    server = h.server;
    ascending = IsAscending-assign 0 s.current_nid (some n) s.tracked (omega arith) h.ascending;
    below =
        AllBelow-assign s.current_nid (s.current_nid + 1) s.current_nid (some n) s.tracked
          (omega arith) (omega arith) h.below;
    room = omega arith;
  }

-- `get_nid` of a server, by what the loop finds.
get_nid-cases :
    (s : NodeSync) (rep : Package) (n : ℕ)
    → IsServer s
    → ((k : ℕ) × (find k s.tracked ≡ some (some n))
        × (get_node_nid s rep n true ≡ some (s, some k)))
      ⊎ ((find_nid n s.tracked ≡ none)
          × (get_node_nid s rep n true ≡ some (tracking s n, some s.current_nid)))
unfolding get_node_nid
get_nid-cases s rep n h = elim (Option-cases (find_nid n s.tracked)) [
  | inl e ↦ inr (e, rw e (rw (do_track-server s rep n h) refl))
  | inr (k, e) ↦ inl (k, find_nid-some 0 n k s.tracked h.ascending e, rw e refl)
]

-- What `get_nid(n)` of a server promises: the node stands under the id from then on, with every other
-- id's node as it was; it stood there before, and nothing has changed, or it stood nowhere, and the id
-- was free; and the invariant holds.
pub record Gives (s : NodeSync) (n : ℕ) (r : Option (NodeSync × Option ℕ)) : Type 0 where
  pub after : NodeSync
  pub nid : ℕ
  pub returns : r ≡ some (after, some nid)
  pub entry :
      (j : ℕ) → find j after.tracked ≡ (if nid == j then some (some n) else find j s.tracked)
  pub found_or_fresh :
      ((find nid s.tracked ≡ some (some n)) × (after ≡ s))
      ⊎ (((k : ℕ) → find k s.tracked ≢ some (some n)) × (find nid s.tracked ≡ none))
  pub valid : IsServer after
  pub grows : after.current_nid ≤ s.current_nid + 1

-- A server with two ids left: `get_nid` of a node that is tracked returns an id of it and changes nothing,
-- and of a node that is not tracked puts it under an id that is not in the map; every other entry stays, and
-- so does the invariant of the map.
pub get_nid-Gives :
    (s : NodeSync) (rep : Package) (n : ℕ)
    → IsServer s
    → s.current_nid + 2 < 2 ^ 64
    → Gives s n (get_node_nid s rep n true)
get_nid-Gives s rep n h r = elim (get_nid-cases s rep n h) [
  | inl (k, e, g) ↦ record {
    after = s;
    nid = k;
    returns = g;
    entry = λ j. ground arith;
    found_or_fresh = inl (e, refl);
    valid = h;
    grows = omega arith;
  }
  | inr (e, g) ↦ record {
    after = tracking s n;
    nid = s.current_nid;
    returns = g;
    entry = λ j. find-assign s.current_nid j (some n) s.tracked;
    found_or_fresh = inr (
      λ k f. find_nid-ne-none n k s.tracked f e,
      find-AllBelow s.current_nid s.current_nid s.tracked h.below (omega arith),
    );
    valid = tracking-IsServer s rep n h r;
    grows = omega arith;
  }
]

find_nid-assign :
    (b n : ℕ) (m : Tracked)
    → AllBelow b m
    → find_nid n m ≡ none
    → find_nid n (assign b (some n) m) ≡ some b
unfolding find_nid assign
find_nid-assign b n [] a e = ground arith
find_nid-assign b n ((k, v) ∷ m) a e = ground (arith, find_nid-assign b n m a.1)

-- On a server a node keeps its id: a second `get_nid` returns the same one and changes nothing.
pub get_nid_again :
    (s s' : NodeSync) (rep rep' : Package) (n nid : ℕ)
    → IsServer s
    → get_node_nid s rep n true ≡ some (s', some nid)
    → get_node_nid s' rep' n true ≡ some (s', some nid)
get_nid_again s s' rep rep' n nid h e = elim (Option-cases (find_nid n s.tracked)) [
  | inl f ↦
      again (tracking s n) s.current_nid (find_nid-assign s.current_nid n s.tracked h.below f)
        (unfold get_node_nid in rw f (rw (do_track-server s rep n h) refl))
  | inr (k, f) ↦ again s k f (unfold get_node_nid in rw f refl)
]
  where
    found :
        (t : NodeSync) (k : ℕ)
        → find_nid n t.tracked ≡ some k
        → get_node_nid t rep' n true ≡ some (t, some k)
    found t k f = unfold get_node_nid in rw f refl

    again :
        (t : NodeSync) (k : ℕ)
        → find_nid n t.tracked ≡ some k
        → get_node_nid s rep n true ≡ some (t, some k)
        → get_node_nid s' rep' n true ≡ some (s', some nid)
    again t k f g = ground (arith, found t k f)

-- The id of a node keeps it when another node gets one.
apart :
    (a b : ℕ) (s s' : NodeSync) (n m : ℕ)
    → n ≢ m
    → ((j : ℕ) → find j s'.tracked ≡ (if b == j then some (some m) else find j s.tracked))
    → ((find b s.tracked ≡ some (some m)) × (s' ≡ s))
      ⊎ (((k : ℕ) → find k s.tracked ≢ some (some m)) × (find b s.tracked ≡ none))
    → find a s.tracked ≡ some (some n)
    → find a s'.tracked ≡ some (some n)
apart a b s s' n m ne entry (inl (there, same)) e = rw same e
apart a b s s' n m ne entry (inr (new, free)) e = ground (arith, entry a)

-- Two nodes that a server with free ids is asked the ids of get two ids, and each id leads back to its node.
pub get_nid_distinct :
    (s : NodeSync) (rep : Package) (n m : ℕ)
    → IsServer s
    → s.current_nid + 3 < 2 ^ 64
    → n ≢ m
    → (s' s'' : NodeSync) × (a b : ℕ) × (get_node_nid s rep n true ≡ some (s', some a))
      × (get_node_nid s' rep m true ≡ some (s'', some b))
      × (a ≢ b)
      × (get_node s'' a ≡ some n)
      × (get_node s'' b ≡ some m)
unfolding get_node
get_nid_distinct s rep n m h r ne =
    let g = get_nid-Gives s rep n h (omega arith) in
    let k = get_nid-Gives g.after rep m g.valid (omega (arith, g.grows)) in
    let here : find g.nid g.after.tracked ≡ some (some n) = ground (arith, g.entry g.nid) in
    let there : find k.nid k.after.tracked ≡ some (some m) = ground (arith, k.entry k.nid) in
    let kept : find g.nid k.after.tracked ≡ some (some n) =
      apart g.nid k.nid g.after k.after n m ne k.entry k.found_or_fresh here in
    (
      g.after,
      k.after,
      g.nid,
      k.nid,
      g.returns,
      k.returns,
      λ e. ground (arith, kept, there),
      ap pointer kept,
      ap pointer there,
    )
