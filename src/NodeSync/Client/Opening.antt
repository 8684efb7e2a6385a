-- ===== src/NodeSync/Client/Opening.antt =====
-- A connection from its start: the server's `set_root`, the `stream_opened` of a client with a root of its
-- own, and the first child.
use treeipc.Base.{
  ℕ, ◌<◌, ◌^◌, ◌≡◌, ◌≢◌, refl, sym, ◌∙◌, [], ◌∷◌, length, true, false, none, some, arith, ==_refl,
  ne→==,
}
use treeipc.Types.{QtText}
use treeipc.Package.{Package, empty}
use treeipc.Package.Commands.{cmd_subscribe_add_remove}
use treeipc.Package.Layout.{get_nid-build}
use treeipc.Serializer.{Machine}
use treeipc.Generator.{Generator, Generated, generate}
use treeipc.NodeSync.State.{
  NodeSync, find, find_nid, get_node, get_node_nid, do_track, do_track_as, generate_nid,
  new_node_sync, set_root, assign,
}
use treeipc.NodeSync.Tree.{TreeApi}
use treeipc.NodeSync.Subscribe.{
  subscribe_add_remove, cmd_subscribe_add_remove_handler, listens_node, notice-build,
}
use treeipc.NodeSync.Children.{
  Child, child_added, cmd_child_added_handler, makes, subscribes, attach_child,
}
use treeipc.NodeSync.Children.Arrival.{cmd_child_added-child_added}
use treeipc.NodeSync.Process.{process_package, to_listeners}
use treeipc.NodeSync.Process.Subscription.{process_package-build}
use treeipc.NodeSync.Client.{keep_root, stream_opened, writes, listens_to}

-- A server that has been given the root `n`, and that root's first child `c`.
abbrev pub serving_root : ℕ → NodeSync
serving_root n = record (new_node_sync true) {
  tracked = (0, some n) ∷ [];
  current_nid = 1;
  root_node = some n;
}

pub set_root_lem : (n : ℕ) → set_root (new_node_sync true) (some n) ≡ some (serving_root n)
unfolding set_root do_track generate_nid do_track_as assign
set_root_lem n = refl

abbrev serving_child : ℕ → ℕ → NodeSync
serving_child n c = record (serving_root n) {
  tracked = (0, some n) ∷ (1, some c) ∷ [];
  current_nid = 2;
}

-- A client that has been given the root `r` and whose stream is open.
abbrev opened : ℕ → NodeSync
opened r = record (new_node_sync false) { tracked = (0, some r) ∷ []; root_node = some r }

root_there : (r : ℕ) → get_node (opened r) 0 ≡ some r
unfolding get_node find
root_there r = refl

nothing_there : (r : ℕ) → get_node (opened r) 1 ≡ none
unfolding get_node find
nothing_there r = refl

module _ (n c : ℕ) where
  root_known : get_node_nid (serving_root n) empty n true ≡ some (serving_root n, some 0)
  unfolding get_node_nid find_nid
  root_known = rw (==_refl n) refl

  child_known :
      c ≢ n → get_node_nid (serving_root n) empty c true ≡ some (serving_child n c, some 1)
  unfolding get_node_nid find_nid do_track generate_nid do_track_as assign
  child_known h = rw (ne→== n c (λ e. h (sym e))) refl

module _ (qt : QtText) (api : TreeApi qt) (m : Machine) (g : Generator) where
  -- A new connection. The server is given its root and the client one of its own, and the stream opens:
  -- the client tracks its root under 0 and listens to it, and its notice makes the server's switch listen
  -- to the server's root. A child that then appears below that root, is no client node there, and is of a
  -- type that the client's generator knows, is told
  -- of by a package that makes the client put a client node of the child's type below its own root, under
  -- the child's name and tracked under the id 1.
  pub stream_opened-child_added :
      (tree : TreeApi.Tree api) (n r address : ℕ) (kind : Generated) (c : Child)
      → c.is_own ≡ false
      → c.node ≢ n
      → length c.child_name < 2 ^ 29
      → length c.child_type < 2 ^ 29
      → generate g c.child_type ≡ some kind
      → (server server' client : NodeSync) × (notice pack : Package) × (set_root
            (new_node_sync true)
            (some n)
          ≡ some server)
        × (stream_opened (keep_root (new_node_sync false) (some r))
            ≡ (client, writes notice ∷ listens_to r ∷ []))
        × (process_package qt api m g tree server empty address notice
            ≡ some (server, to_listeners (listens_node n) ∷ []))
        × (child_added server empty empty n c ≡ some (server', some pack))
        × (cmd_child_added_handler g client address pack
            ≡ some (
              do_track_as client address 1,
              makes address kind 1 ∷ subscribes 1 ∷ attach_child r c.child_name address c.is_owned,
            ))
  unfolding stream_opened keep_root assign subscribe_add_remove cmd_subscribe_add_remove_handler
      find
  stream_opened-child_added tree n r address kind c foreign other ln lt eg =
      let (pack, told, placed) =
        cmd_child_added-child_added c (serving_root n) (serving_root n) (serving_child n c.node)
          (opened r) empty empty g n 0 1 r address kind foreign (root_known n c.node)
          (child_known n c.node other) (omega arith) (omega arith) ln lt (root_there r)
          (nothing_there r) eg in
      (
        serving_root n,
        serving_child n c.node,
        opened r,
        subscribe_add_remove 0,
        pack,
        set_root_lem n,
        refl,
        rw (notice-build cmd_subscribe_add_remove 0) (
            process_package-build qt api m g tree (serving_root n) empty address
              cmd_subscribe_add_remove 0 [] (omega arith)
            ∙ rw (get_nid-build cmd_subscribe_add_remove 0 [] (omega arith)) refl),
        told,
        placed,
      )
