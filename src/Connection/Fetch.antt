-- ===== src/Connection/Fetch.antt =====
-- `fetch_node` from one `node_sync` to the other: over both streams, dispatchers, the queue and its thread.
use treeipc.Base.{
  ℕ, ◌+◌, ◌<◌, ◌^◌, ◌≡◌, ◌≢◌, sym, subst, ap, ◌∙◌, List, [], ◌∷◌, ◌++◌, length, flatten, replicate,
  All, IsByte, All-append, Option, some, true, arith, append_assoc, length-append, length-replicate,
  le_bytes, le_bytes-IsByte,
}
use treeipc.Types.{QtText}
use treeipc.Package.{Package, get_cmd}
use treeipc.Package.Commands.{cmd_at, cmd_at_success}
use treeipc.Package.Layout.{build, length-build, get_cmd-build}
use treeipc.Package.Text.{encode_string, length-encode_string}
use treeipc.Serializer.{Machine}
use treeipc.Generator.{Generator, Generated, generate}
use treeipc.Transport.{Transport}
use treeipc.Queue.{push, pop}
use treeipc.Codec.{new_codec}
use treeipc.Dispatcher.{
  Dispatcher, write, reply, send_begin, send_finish, generate_msgid, with_reply_flag,
}
use treeipc.Dispatcher.RoundTrip.{IsPackage}
use treeipc.NodeSync.State.{NodeSync, get_node, get_node_nid, do_track_as}
use treeipc.NodeSync.Tree.{TreeApi, type_name}
use treeipc.NodeSync.Wire.{header-append_string}
use treeipc.NodeSync.At.{
  fetch_request, fetch_request_lem, at_reply, fetch_response, cmd_at_handler, cmd_at-fetch_request,
  fetch_response-at_reply,
}
use treeipc.NodeSync.Process.{replies, process_package, with_reply}
use treeipc.NodeSync.Process.Subscription.{process_package-build}
use treeipc.Connection.{Receiver, on_stream}
use treeipc.Connection.Delivery.{IsNotice}
use treeipc.Connection.Request.{on_stream-exchange}

build-IsPackage : (c n : ℕ) (d : List ℕ) → All IsByte d → IsPackage (build c n d)
build-IsPackage c n d h = (
  All-append IsByte (le_bytes 8 n) (le_bytes 1 c ++ d) (le_bytes-IsByte 8 n)
      (All-append IsByte (le_bytes 1 c) d (le_bytes-IsByte 1 c) h),
  omega (arith, length-build c n d),
)

-- A package that ends with a string.
module _ (c n : ℕ) (s : List ℕ) where
  string-IsPackage : All IsByte s → IsPackage (build c n (encode_string s))
  string-IsPackage h =
      build-IsPackage c n (encode_string s)
        (All-append IsByte (le_bytes 4 (length s)) s (le_bytes-IsByte 4 (length s)) h)

  length-string : length (build c n (encode_string s)) ≡ 13 + length s
  length-string = omega (arith, length-build c n (encode_string s), length-encode_string s)

request-IsPackage : (nid : ℕ) (name : List ℕ) → All IsByte name → IsPackage (fetch_request nid name)
unfolding fetch_request
request-IsPackage nid name h =
    subst IsPackage (sym (header-append_string cmd_at nid name))
      (string-IsPackage cmd_at nid name h)

request-IsNotice :
    (nid : ℕ) (name : List ℕ)
    → length name < 2 ^ 29
    → IsNotice (fetch_request nid name ++ replicate 9 0)
request-IsNotice nid name h =
    let body = encode_string name ++ replicate 9 0 in
    record {
      short = omega (
        arith,
        h,
        ap length (fetch_request_lem nid name 9),
        length-build cmd_at nid body,
        length-append (encode_string name) (replicate 9 0),
        length-encode_string name,
        length-replicate 9 (let z : ℕ = 0 in z),
      );
      cmd = cmd_at;
      has_cmd =
          ap get_cmd (fetch_request_lem nid name 9) ∙ get_cmd-build cmd_at nid body (omega arith);
      no_request = omega arith;
    }

module _ (qt : QtText) (api : TreeApi qt) (m : Machine) (g : Generator) where
  open api use {Tree}

  -- The thread of the other side, with the request.
  process_package-fetch_request :
      (tree : Tree) (s s' : NodeSync) (rep : Package) (address nid : ℕ) (name : List ℕ)
      (resp : Package)
      → cmd_at_handler qt api tree s rep (fetch_request nid name ++ replicate 9 0) ≡ some (s', resp)
      → process_package qt api m g tree s rep address (fetch_request nid name ++ replicate 9 0)
        ≡ some (s', replies resp ∷ [])
  process_package-fetch_request tree s s' rep address nid name resp e =
      ap (process_package qt api m g tree s rep address) (fetch_request_lem nid name 9)
      ∙ process_package-build qt api m g tree s rep address cmd_at nid
          (encode_string name ++ replicate 9 0) (omega arith)
      ∙ ap (λ p. with_reply qt (cmd_at_handler qt api tree s rep p))
          (sym (fetch_request_lem nid name 9))
      ∙ ap (with_reply qt) e

-- The two copies behind a reply, as one.
both_copies :
    (o : Option (Dispatcher × Package)) (d : Dispatcher) (p : Package)
    → o ≡ some (d, (p ++ replicate 9 0) ++ replicate 9 0)
    → o ≡ some (d, p ++ replicate 18 0)
both_copies o d p e = e ∙ ap (λ q. some (d, q)) (append_assoc p (replicate 9 0) (replicate 9 0))

module _ (t : Transport) (qt : QtText) (api : TreeApi qt) (m : Machine) (g : Generator) where
  open t use {State, sent}
  open api use {Tree}

  -- `fetch_node` of a name that the other side's tree has below the node, where texts and ids fit their
  -- fields, the client knows the found node's type, nothing waits at the other side, and both vectors are
  -- written with success, the first ones on their streams: however the transports cut the bytes, the
  -- other side's thread pops the request and replies to it with the id that its `node_sync` gives the
  -- found node; the sender is woken; and `fetch_node` returns a new node of that type, tracked under
  -- that id.
  pub on_stream-fetch :
      (tree : Tree) (s s' so so' : State) (d d' : Dispatcher) (r c : Receiver t)
      (none_asked : Package) (server : NodeSync) (kind : Generated) (chunks chunks' : List (List ℕ))
      → (msgid nid id parent n address : ℕ) (name type : List ℕ) → All IsByte name
      → All IsByte type
      → nid < 2 ^ 64
      → id < 2 ^ 64
      → length name < 2 ^ 29
      → length type < 2 ^ 29
      → type_name qt (api.property tree n) ≡ type
      → generate g type ≡ some kind
      → get_node r.node nid ≡ some parent
      → api.at tree parent name ≡ some n
      → get_node_nid r.node none_asked n true ≡ some (server, some id)
      → generate_msgid d ≡ (d', msgid)
      → msgid ≢ 0
      → msgid < 2 ^ 15
      → sent s ≡ []
      → write t (some s) (fetch_request nid name ++ replicate 9 0) msgid ≡ (some s', true)
      → flatten chunks ≡ sent s'
      → r.queue ≡ []
      → r.out ≡ some so
      → sent so ≡ []
      → write t (some so) (at_reply id type) (with_reply_flag msgid) ≡ (some so', true)
      → flatten chunks' ≡ sent so'
      → (waiting answered freed : Dispatcher) × (r' c' : Receiver t) × (rep : Package) × (send_begin
            t
            (some s)
            d
            (fetch_request nid name)
          ≡ some (some s', waiting, some msgid))
        × (on_stream t none_asked new_codec r chunks ≡ some (new_codec, r'))
        × (pop r'.queue ≡ some ((r.fresh, fetch_request nid name ++ replicate 9 0), []))
        × (process_package qt api m g tree r'.node none_asked address
              (fetch_request nid name ++ replicate 9 0)
            ≡ some (server, replies (at_reply id type) ∷ []))
        × (reply t r'.out r'.dispatcher r.fresh (at_reply id type) ≡ (some so', answered, true))
        × (on_stream t none_asked new_codec (record c { dispatcher = waiting }) chunks'
            ≡ some (new_codec, c'))
        × (c'.dispatcher.response_received msgid ≡ true)
        × (send_finish c'.dispatcher msgid [] ≡ some (freed, rep))
        × (fetch_response g c'.node address rep
            ≡ some (
              do_track_as c.node address id,
              some (record { address = address; kind = kind; nid = id }),
            ))
  unfolding push pop
  on_stream-fetch tree s s' so so' d d' r c none_asked server kind chunks chunks' msgid nid id
        parent n address name type bn bt hn hi ln lt ty ek ep en eg gm nz small fs w cut queue out
        fo wo cut' =
      let answer = header-append_string cmd_at_success id type in
      let (sends, arrives, answers, returns, woken, finishes) =
        on_stream-exchange t s s' so so' d d' r c (fetch_request nid name) (at_reply id type) []
          none_asked msgid chunks chunks' (request-IsPackage nid name bn)
          (subst IsPackage (sym answer) (string-IsPackage cmd_at_success id type bt))
          (request-IsNotice nid name ln)
          (omega (arith, lt, ap length answer, length-string cmd_at_success id type)) gm nz small fs
          w cut out fo wo cut' in
      (
        _,
        _,
        _,
        _,
        _,
        _,
        sends,
        arrives,
        ap (λ q. pop (push q (r.fresh, fetch_request nid name ++ replicate 9 0))) queue,
        process_package-fetch_request qt api m g tree r.node server none_asked address nid name
            (at_reply id type)
            (cmd_at-fetch_request qt api nid id address name type tree r.node server none_asked
              parent n hn (omega (arith, ln)) ty ep en eg),
        answers,
        returns,
        woken,
        both_copies _ _ (at_reply id type) finishes,
        fetch_response-at_reply qt api nid id address name type c.node g kind hi (omega (arith, lt))
            ek,
      )
