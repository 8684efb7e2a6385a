-- ===== src/NodeSync/At.antt =====
-- `cmd_at`, and `fetch_node` on the other side.
use treeipc.Base.{
  ℕ, ◌<◌, ◌^◌, ◌≡◌, refl, ap, ◌∙◌, List, [], ◌++◌, length, replicate, true, Option, none, some,
  ◌==◌, if◌then◌else◌, ◌>>=◌, arith, ◌⊎◌, inl, inr,
}
use treeipc.Types.{QtText}
use treeipc.Package.{Package, get_nid, get_cmd}
use treeipc.Package.Commands.{cmd_at, cmd_at_success, cmd_at_error}
use treeipc.Package.Layout.{build, get_nid-build, get_cmd-build}
use treeipc.Package.Text.{append_string, read_string, encode_string}
use treeipc.Generator.{Generator, Generated, generate}
use treeipc.NodeSync.State.{NodeSync, get_node, get_node_nid, do_track_as}
use treeipc.NodeSync.Wire.{header, header_lem, header-append_string, build-zeros, read_string-first}
use treeipc.NodeSync.Tree.{TreeApi, type_name}

module _ (qt : QtText) (api : TreeApi qt) where
  open api use {Tree}

  -- The answer to a node that `at` found: its id and its type.
  abbrev found_at : Tree → ℕ → Option (NodeSync × Option ℕ) → Option (NodeSync × Package)
  found_at tree n none = none
  found_at tree n (some (s, none)) = none
  found_at tree n (some (s, some nid)) =
      some (s, append_string (header cmd_at_success nid) (type_name qt (api.property tree n)))

  abbrev answer_at : Tree → NodeSync → Package → ℕ → Option ℕ → Option (NodeSync × Package)
  answer_at tree s rep nid none = some (s, header cmd_at_error nid)
  answer_at tree s rep nid (some n) = found_at tree n (get_node_nid s rep n true)

  abbrev look_at : Tree → NodeSync → Package → Package → ℕ → Option ℕ → Option (NodeSync × Package)
  look_at tree s rep p nid none = some (s, header cmd_at_error nid)
  look_at tree s rep p nid (some t) = do
    (path, pos) ← read_string p [] 0
    answer_at tree s rep nid (api.at tree t path)

  -- `cmd_at`: the reply to the request `p`. `rep` is for a client that has to ask for an id.
  unfoldable pub cmd_at_handler : Tree → NodeSync → Package → Package → Option (NodeSync × Package)
  cmd_at_handler tree s rep p = do nid ← get_nid p; look_at tree s rep p nid (get_node s nid)

-- `fetch_node`, the request.
unfoldable pub fetch_request : ℕ → List ℕ → Package
fetch_request nid name = append_string (header cmd_at nid) name

-- A client node that `fetch_node` returns: the new object's address, its kind, and the id set in it.
pub record Fetched : Type 0 where
  pub address : ℕ
  pub kind : Generated
  pub nid : ℕ

abbrev pub fetched : NodeSync → ℕ → ℕ → Option Generated → NodeSync × Option Fetched
fetched s address nid none = (s, none)
fetched s address nid (some kind) =
    (do_track_as s address nid, some (record { address = address; kind = kind; nid = nid }))

-- `fetch_node`, from the response `rep` on. A node that is generated gets the address `address`.
unfoldable pub fetch_response :
    Generator → NodeSync → ℕ → Package → Option (NodeSync × Option Fetched)
fetch_response g s address rep = do
  cmd ← get_cmd rep
  if cmd == cmd_at_error then some (s, none) else (do
    (type, pos) ← read_string rep [] 0
    nid ← get_nid rep
    some (fetched s address nid (generate g type)))

-- The reply to a node that is there.
abbrev pub at_reply : ℕ → List ℕ → Package
at_reply id type = append_string (header cmd_at_success id) type

pub fetch_request_lem :
    (nid : ℕ) (name : List ℕ) (k : ℕ)
    → fetch_request nid name ++ replicate k 0
      ≡ build cmd_at nid (encode_string name ++ replicate k 0)
unfolding fetch_request
fetch_request_lem nid name k =
    ap (λ p. p ++ replicate k 0) (header-append_string cmd_at nid name)
    ∙ build-zeros cmd_at nid (encode_string name) k

module _ (qt : QtText) (api : TreeApi qt) where
  open api use {Tree}

  module _ (nid id address : ℕ) (name type : List ℕ) where
    -- The request arrives, and the server finds a node and has an id for it.
    pub cmd_at-fetch_request :
        (tree : Tree) (server server' : NodeSync) (rep : Package) (t n : ℕ)
        → nid < 2 ^ 64
        → length name < 2 ^ 30
        → type_name qt (api.property tree n) ≡ type
        → get_node server nid ≡ some t
        → api.at tree t name ≡ some n
        → get_node_nid server rep n true ≡ some (server', some id)
        → cmd_at_handler qt api tree server rep (fetch_request nid name ++ replicate 9 0)
          ≡ some (server', at_reply id type)
    unfolding cmd_at_handler
    cmd_at-fetch_request tree server server' rep t n hn hl ty et en eg =
        rw
          (
            fetch_request_lem nid name 9,
            get_nid-build cmd_at nid (encode_string name ++ replicate 9 0) hn,
          )
          (rw et (
            rw (read_string-first cmd_at nid name (replicate 9 0) hl) (rw en (rw eg (rw ty refl)))))

    -- The reply arrives, and the client knows the type.
    pub fetch_response-at_reply :
        (c : NodeSync) (g : Generator) (kind : Generated)
        → id < 2 ^ 64
        → length type < 2 ^ 30
        → generate g type ≡ some kind
        → fetch_response g c address (at_reply id type ++ replicate 18 0)
          ≡ some
              (do_track_as c address id, some (record { address = address; kind = kind; nid = id }))
    unfolding fetch_response
    fetch_response-at_reply c g kind hi ht ek =
        rw
          (
            header-append_string cmd_at_success id type,
            build-zeros cmd_at_success id (encode_string type) 18,
          )
          (rw (get_cmd-build cmd_at_success id (encode_string type ++ replicate 18 0) (omega arith))
            (rw (read_string-first cmd_at_success id type (replicate 18 0) ht) (
              rw (get_nid-build cmd_at_success id (encode_string type ++ replicate 18 0) hi)
                (rw ek refl))))

  -- `fetch_node` of a name that the tree has below the node, where the generator knows the found node's
  -- type and texts and ids fit their fields: over the copies that `send` and its reply
  -- make, the server answers with the id that it gives the found node, and the client makes a node of
  -- the found node's type and tracks it under that id.
  pub fetch-cmd_at :
      (tree : Tree) (server server' c : NodeSync) (rep : Package) (g : Generator)
      → (nid id t n address : ℕ) (name : List ℕ) (kind : Generated) → nid < 2 ^ 64
      → id < 2 ^ 64
      → length name < 2 ^ 30
      → length (type_name qt (api.property tree n)) < 2 ^ 30
      → get_node server nid ≡ some t
      → api.at tree t name ≡ some n
      → get_node_nid server rep n true ≡ some (server', some id)
      → generate g (type_name qt (api.property tree n)) ≡ some kind
      → (resp : Package) × (cmd_at_handler qt api tree server rep
            (fetch_request nid name ++ replicate 9 0)
          ≡ some (server', resp))
        × (fetch_response g c address (resp ++ replicate 18 0)
            ≡ some (
              do_track_as c address id,
              some (record { address = address; kind = kind; nid = id }),
            ))
  fetch-cmd_at tree server server' c rep g nid id t n address name kind hn hi hl ht et en eg ek =
      let type = type_name qt (api.property tree n) in
      (
        at_reply id type,
        cmd_at-fetch_request nid id address name type tree server server' rep t n hn hl refl et en
            eg,
        fetch_response-at_reply nid id address name type c g kind hi ht ek,
      )

  -- Where the server does not track the id, or its tree has no such name below the node, the reply is an
  -- error, nothing changes on the server, and the client has a null pointer and tracks nothing new.
  pub fetch-cmd_at_error :
      (tree : Tree) (server c : NodeSync) (rep : Package) (g : Generator)
      → (nid address : ℕ) (name : List ℕ) → nid < 2 ^ 64
      → length name < 2 ^ 30
      → ((get_node server nid ≡ none)
          ⊎ ((t : ℕ) × (get_node server nid ≡ some t) × (api.at tree t name ≡ none)))
      → (resp : Package) × (cmd_at_handler qt api tree server rep
            (fetch_request nid name ++ replicate 9 0)
          ≡ some (server, resp))
        × (fetch_response g c address (resp ++ replicate 18 0) ≡ some (c, none))
  unfolding cmd_at_handler fetch_response
  fetch-cmd_at_error tree server c rep g nid address name hn hl why = (
    header cmd_at_error nid,
    rw
        (
          fetch_request_lem nid name 9,
          get_nid-build cmd_at nid (encode_string name ++ replicate 9 0) hn,
        )
        (refused why),
    rw (header_lem cmd_at_error nid, build-zeros cmd_at_error nid [] 18)
        (rw (get_cmd-build cmd_at_error nid (replicate 18 0) (omega arith)) refl),
  )
    where
      refused :
          ((get_node server nid ≡ none)
            ⊎ ((t : ℕ) × (get_node server nid ≡ some t) × (api.at tree t name ≡ none)))
          → look_at qt api tree server rep
              (build cmd_at nid (encode_string name ++ replicate 9 0))
              nid
              (get_node server nid)
            ≡ some (server, header cmd_at_error nid)
      refused (inl e) = rw e refl
      refused (inr (t, e, a)) =
          rw e (rw (read_string-first cmd_at nid name (replicate 9 0) hl) (rw a refl))
