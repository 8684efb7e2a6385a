-- ===== src/NodeSync/Client.antt =====
-- client.h, client.cpp, client_nonroot.h and client_nonroot.cpp: a client that fetches its root, and a
-- client with a root of its own.
pub mod Opening
use treeipc.Base.{
  ℕ, ◌<◌, ◌^◌, ◌≡◌, refl, sym, ap, ◌∙◌, List, [], ◌∷◌, ◌++◌, length, replicate, Bool, true, false,
  Option, none, some, ◌==◌, if◌then◌else◌, ◌>>=◌, ◌||◌, arith, ◌⊎◌, ==_refl,
}
use treeipc.Types.{QtText}
use treeipc.Package.{Package}
use treeipc.Generator.{Generator, Generated, generate}
use treeipc.NodeSync.State.{NodeSync, get_node, get_node_nid, do_track_as, assign}
use treeipc.NodeSync.Tracking.{find-assign}
use treeipc.NodeSync.Tree.{TreeApi, type_name}
use treeipc.NodeSync.At.{
  Fetched, fetch_request, fetch_response, cmd_at_handler, fetch-cmd_at, fetch-cmd_at_error,
}
use treeipc.NodeSync.Subscribe.{subscribe_add_remove}
use treeipc.NodeSync.Children.{Child, child_added}

-- `node_sync::set_root`, which `client_nonroot::set_root` calls.
unfoldable pub keep_root : NodeSync → Option ℕ → NodeSync
keep_root s root = record s { root_node = root }

-- What `client::get_root` asks for where it has no root.
abbrev pub root_request : Package
root_request = fetch_request 0 (b'/' ∷ [])

abbrev pub root_fetched : NodeSync × Option Fetched → NodeSync × Option ℕ
root_fetched (s, none) = (keep_root s none, none)
root_fetched (s, some f) = (keep_root s (some f.address), some f.address)

abbrev pub root_or_fetch :
    Generator → NodeSync → ℕ → Package → Option ℕ → Option (NodeSync × Option ℕ)
root_or_fetch g s address resp (some root) = some (s, some root)
root_or_fetch g s address resp none = do r ← fetch_response g s address resp; some (root_fetched r)

-- `client::get_root`: `resp` is the response to `root_request`, where that is sent, and a node that is
-- generated gets the address `address`.
unfoldable pub get_root : Generator → NodeSync → ℕ → Package → Option (NodeSync × Option ℕ)
get_root g s address resp = root_or_fetch g s address resp s.root_node

-- The comparison of two pointers.
unfoldable pub same : Option ℕ → Option ℕ → Bool
same none none = true
same (some a) (some b) = a == b
same none (some b) = false
same (some a) none = false

-- `client_nonroot::child_added`, of a child that has the owner given.
unfoldable pub child_added_nonroot :
    NodeSync → Package → Package → ℕ → Child → Option ℕ → Option (NodeSync × Option Package)
child_added_nonroot s rep rep' parent child owner =
    if child.is_own || same owner s.root_node
    then some (s, none)
    else child_added s rep rep' parent child

-- What `client_nonroot::stream_opened` does beside its change of the map.
pub data OpeningEffect : Type 0 where
  writes : Package → OpeningEffect
  listens_to : ℕ → OpeningEffect

abbrev pub listen_to_root : Option ℕ → List OpeningEffect
listen_to_root none = []
listen_to_root (some root) = listens_to root ∷ []

-- `client_nonroot::stream_opened`: the root, a null pointer too, is tracked under 0.
unfoldable pub stream_opened : NodeSync → NodeSync × List OpeningEffect
stream_opened s = (
  record s { tracked = assign 0 s.root_node s.tracked },
  writes (subscribe_add_remove 0) ∷ listen_to_root s.root_node,
)

get_root_bare :
    (g : Generator) (s : NodeSync) (address : ℕ) (resp : Package) (r : NodeSync × Option Fetched)
    → s.root_node ≡ none
    → fetch_response g s address resp ≡ some r
    → get_root g s address resp ≡ some (root_fetched r)
unfolding get_root
get_root_bare g s address resp r bare e =
    ap (root_or_fetch g s address resp) bare ∙ ap (λ o. o >>= λ r. some (root_fetched r)) e

module _ (qt : QtText) (api : TreeApi qt) (tree : TreeApi.Tree api) where
  -- `get_root` of a client that has no root, where the server finds a node for `/` and gives it an id, and
  -- the generator knows its type: the new node becomes the root, tracked under the server's id, and from
  -- then on `get_root` returns it, whatever a response would be, and changes nothing.
  pub get_root-cmd_at :
      (server server' c : NodeSync) (rep : Package) (g : Generator) (id t n address : ℕ)
      → (kind : Generated) (address' : ℕ) (resp' : Package) → c.root_node ≡ none
      → id < 2 ^ 64
      → length (type_name qt (api.property tree n)) < 2 ^ 30
      → get_node server 0 ≡ some t
      → api.at tree t (b'/' ∷ []) ≡ some n
      → get_node_nid server rep n true ≡ some (server', some id)
      → generate g (type_name qt (api.property tree n)) ≡ some kind
      → (resp : Package) × (c' : NodeSync) × (cmd_at_handler qt api tree server rep
            (root_request ++ replicate 9 0)
          ≡ some (server', resp))
        × (get_root g c address (resp ++ replicate 18 0) ≡ some (c', some address))
        × (get_node c' id ≡ some address)
        × (get_root g c' address' resp' ≡ some (c', some address))
  unfolding get_root keep_root do_track_as get_node
  get_root-cmd_at server server' c rep g id t n address kind address' resp' bare hi ht et en eg ek =
      let (resp, asks, takes) =
        fetch-cmd_at qt api tree server server' c rep g 0 id t n address (b'/' ∷ []) kind
          (omega arith) hi (omega arith) ht et en eg ek in
      (
        resp,
        keep_root (do_track_as c address id) (some address),
        asks,
        get_root_bare g c address (resp ++ replicate 18 0)
            (do_track_as c address id, some (record { address = address; kind = kind; nid = id }))
            bare takes,
        rw (find-assign id id (some address) c.tracked) (rw (==_refl id) refl),
        refl,
      )

  -- Where the server has no node for `/`, `get_root` returns a null pointer, the client is as before, and
  -- asks again the next time.
  pub get_root-cmd_at_error :
      (server c : NodeSync) (rep : Package) (g : Generator) (address : ℕ)
      → c.root_node ≡ none
      → ((get_node server 0 ≡ none)
          ⊎ ((t : ℕ) × (get_node server 0 ≡ some t) × (api.at tree t (b'/' ∷ []) ≡ none)))
      → (resp : Package) × (cmd_at_handler qt api tree server rep (root_request ++ replicate 9 0)
          ≡ some (server, resp))
        × (get_root g c address (resp ++ replicate 18 0) ≡ some (c, none))
  unfolding get_root keep_root
  get_root-cmd_at_error server c rep g address bare why =
      let (resp, asks, takes) =
        fetch-cmd_at_error qt api tree server c rep g 0 address (b'/' ∷ []) (omega arith)
          (omega arith) why in
      (
        resp,
        asks,
        get_root_bare g c address (resp ++ replicate 18 0) (c, none) bare takes
            ∙ ap (λ r. some (record c { root_node = r }, none)) (sym bare),
      )
