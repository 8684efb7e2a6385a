-- ===== src/ClientNode/Lifetime.antt =====
-- A client node from `fetch_node` to its destructor, in the map of its client.
use treeipc.Base.{ℕ, ◌≡◌, refl, ap, ◌∙◌, Option, none, some, if◌then◌else◌, ==_refl}
use treeipc.NodeSync.State.{NodeSync, find, do_track_as, remove_client_node}
use treeipc.NodeSync.Tracking.{IsAscending}
use treeipc.NodeSync.Registry.{registry, registry-refines, remove_client_node-do_track_as}
use treeipc.NodeSync.At.{fetched, Fetched}
use treeipc.Generator.{Generated}
use treeipc.ClientNode.Owner.{ClientNode, new_client_node, set_client, set_nid, delete_client_node}

-- The client node of `fetch_node` at its end: `c` is the address of its client, which is then in the state
-- given.
unfoldable pub fetched_node : Option (ℕ × NodeSync) → ℕ → NodeSync → Fetched → ClientNode
fetched_node junk c sync f =
    set_client (set_nid (new_client_node junk f.address 0) f.nid) (some (c, sync))

-- A client node that is fetched under an id that is free, and deleted, leaves its client as it was.
pub delete-fetched :
    (junk : Option (ℕ × NodeSync)) (sync : NodeSync) (c address nid : ℕ) (kind : Generated)
    → IsAscending 0 sync.tracked
    → find nid sync.tracked ≡ none
    → (after : NodeSync) × (f : Fetched) × (fetched sync address nid (some kind) ≡ (after, some f))
      × (delete_client_node (fetched_node junk c after f) ≡ some (c, sync))
unfolding delete_client_node fetched_node set_client set_nid
delete-fetched junk sync c address nid kind a free = (
  do_track_as sync address nid,
  record { address = address; kind = kind; nid = nid },
  refl,
  ap (λ s. some (c, s)) (remove_client_node-do_track_as sync address nid a free),
)

-- A node that is fetched twice has two client nodes of one id. The id leads to the second, and once the
-- destructor of the first has run it leads nowhere.
pub delete-fetched_twice :
    (junk : Option (ℕ × NodeSync)) (sync : NodeSync) (c first second nid : ℕ) (kind : Generated)
    → IsAscending 0 sync.tracked
    → (one both after : NodeSync) × (f g : Fetched) × (fetched sync first nid (some kind)
        ≡ (one, some f))
      × (fetched one second nid (some kind) ≡ (both, some g))
      × (registry both nid ≡ some (some second))
      × (delete_client_node (fetched_node junk c both f) ≡ some (c, after))
      × (registry after nid ≡ none)
unfolding delete_client_node fetched_node set_client set_nid
delete-fetched_twice junk sync c first second nid kind a =
    let one = do_track_as sync first nid in
    let both = do_track_as one second nid in
    let b = (registry-refines sync first nid nid a).1 in
    let tracks = registry-refines one second nid nid b in
    (
      one,
      both,
      remove_client_node both nid,
      record { address = first; kind = kind; nid = nid },
      record { address = second; kind = kind; nid = nid },
      refl,
      refl,
      tracks.0 ∙ ap (λ e. if e then some (some second) else registry one nid) (==_refl nid),
      refl,
      (registry-refines both first nid nid tracks.1).2
          ∙ ap (λ e. if e then none else registry both nid) (==_refl nid),
    )
