-- ===== src/ClientNode/Attaching.antt =====
-- What a client node's `attach` sends, and what the other side makes of it.
use treeipc.Base.{
  ℕ, ◌<◌, ◌^◌, ◌≡◌, refl, ap, ◌∙◌, List, [], ◌∷◌, length, Bool, true, false, Option, none, some,
}
use treeipc.Package.{Package}
use treeipc.Generator.{Generator, Generated, generate}
use treeipc.NodeSync.State.{NodeSync, find, get_node_nid, do_track_as}
use treeipc.NodeSync.Attach
use treeipc.NodeSync.Attach.{cmd_attach, cmd_attach-attach}
use treeipc.NodeSync.Children.{makes, attaches, subscribes}
use treeipc.ClientNode.Owner.{Siblings, ClientNode, attach, attach_by, after_attach, is_of}

module _ (w : Siblings) where
  open w use {State, has_child, as_client_node}

  -- A node that is put under a free name below a client node, and is no client node of the same client:
  -- the tree attaches it, and the one package that is written makes the other side, which tracks the
  -- parent and whose generator knows the type, generate a client node of the node's type, track it under
  -- the id that the node has here, attach it below the parent under the node's own name and subscribe to
  -- it. The result is a null pointer all the same.
  pub attach-cmd_attach :
      (s s' : State) (this : ClientNode) (rep : Package) (name : List ℕ) (obj : ℕ) (append : Bool)
      → (sync sync' other : NodeSync) (c child_nid parent address : ℕ) (res : Option ℕ)
      → (g : Generator) (kind : Generated) → this.cl ≡ some (c, sync)
      → has_child s this.address name ≡ false
      → w.attach s this.address name obj append ≡ (s', res)
      → is_of c (as_client_node s' obj) ≡ false
      → get_node_nid sync rep obj true ≡ some (sync', some child_nid)
      → this.nid < 2 ^ 64
      → child_nid < 2 ^ 64
      → length (w.type s' obj) < 2 ^ 29
      → length (w.name s' obj) < 2 ^ 29
      → find this.nid other.tracked ≡ some (some parent)
      → generate g (w.type s' obj) ≡ some kind
      → (p : Package) × (attach w s this rep name (some obj) append
          ≡ some (record {
            tree = s';
            this = record this { cl = some (c, sync') };
            written = p ∷ [];
            result = none;
          }))
        × (cmd_attach g other address p
            ≡ some (
              do_track_as other address child_nid,
              makes address kind child_nid
                  ∷ attaches parent (w.name s' obj) address
                  ∷ subscribes child_nid
                  ∷ [],
            ))
  unfolding attach
  attach-cmd_attach s s' this rep name obj append sync sync' other c child_nid parent address res g
        kind ec free er own en hp hc ht hn ep eg =
      let (p, written, taken) =
        cmd_attach-attach sync sync' other rep g this.nid obj child_nid parent address
          (w.type s' obj) (w.name s' obj) kind en hp hc ht hn ep eg in
      (p, rw free (ap (attach_by w s this rep name obj append) ec ∙ attach_by_new p written), taken)
    where
      attach_by_new :
          (p : Package)
          → Attach.attach sync rep this.nid obj (w.type s' obj) (w.name s' obj) ≡ some (sync', p)
          → attach_by w s this rep name obj append (some (c, sync))
            ≡ some (record {
              tree = s';
              this = record this { cl = some (c, sync') };
              written = p ∷ [];
              result = none;
            })
      attach_by_new p e = rw er (rw own (ap (after_attach w s' this c name res) e))

  -- An `attach` that sends nothing changes nothing of the client: that of a null pointer, that under a
  -- name that is taken, and that of a client node of the same client.
  pub attach_silent :
      (s s' : State) (this : ClientNode) (rep : Package) (name : List ℕ) (obj : ℕ) (append : Bool)
      → (c : ℕ) (sync : NodeSync) (res : Option ℕ) → this.cl ≡ some (c, sync)
      → (attach w s this rep name none append
          ≡ some (record { tree = s; this = this; written = []; result = none }))
        × (has_child s this.address name ≡ true
            → attach w s this rep name (some obj) append
              ≡ some (record { tree = s; this = this; written = []; result = some obj }))
        × (has_child s this.address name ≡ false
            → w.attach s this.address name obj append ≡ (s', res)
            → is_of c (as_client_node s' obj) ≡ true
            → attach w s this rep name (some obj) append
              ≡ some (record { tree = s'; this = this; written = []; result = res }))
  unfolding attach
  attach_silent s s' this rep name obj append c sync res ec = (
    refl,
    λ taken. rw taken refl,
    λ free er own. rw free (ap (attach_by w s this rep name obj append) ec ∙ rw er (rw own refl)),
  )
