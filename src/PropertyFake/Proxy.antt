-- ===== src/PropertyFake/Proxy.antt =====
-- A proxy between its user and the other side: what is set arrives there, what arrives from there is
-- read here, and nothing that arrives is sent back.
use treeipc.Base.{
  ℕ, ◌<◌, ◌^◌, ◌≡◌, ◌≢◌, refl, ap, ◌∙◌, List, [], ◌∷◌, ◌++◌, length, replicate, Bool, false, Option,
  none, some,
}
use treeipc.Types.{QtText, TypeNames}
use treeipc.Package.{Package, empty}
use treeipc.Serializer.{Value, Store, set_value, sync_value, object, text, bytes, init}
use treeipc.Serializer.RoundTrip.{property, IsSound, IsValue, type_of, store, wire}
use treeipc.NodeSync.State.{NodeSync, find, find_nid, get_node}
use treeipc.NodeSync.Tree.{TreeApi}
use treeipc.NodeSync.Values.{
  stores, notify_change, updated, process_prop_value, update_request, cmd_get_prop, update_response,
  cmd_prop_value,
}
use treeipc.NodeSync.Values.Sync.{
  node_of, cmd_prop_value-request, process_prop_value-updated, update_response-cmd_get_prop,
}
use treeipc.PropertyFake.{
  PropertyValue, PropertyFake, set_proxy, request_set, deserialize_proxy, set_deserialization,
  get_value,
}

module _ (names : TypeNames) (qt : QtText) (base : PropertyValue qt) (api : TreeApi qt) where
  open base use {Base, set, sync, get}

  abbrev pub value_of : Store qt → Value qt
  value_of (set_value v) = v
  value_of (sync_value v) = v

  pub value_of-store : (v : Value qt) → value_of (store names qt v) ≡ v
  value_of-store (object t mem) = refl
  value_of-store (text q) = refl
  value_of-store (bytes b) = refl

  module _ (type : List ℕ) where
    -- The proxy once what the other side sent has been stored.
    pub record Settles (p : PropertyFake qt base) (s : Store qt) : Type 0 where
      pub after : PropertyFake qt base
      pub silent : deserialize_proxy qt base api (init names) type p s ≡ some (after, none)
      pub reads : get after.property_value ≡ value_of s
      pub same_nid : after.nid ≡ p.nid
      pub idle : after.deserialization_in_process ≡ false

    -- Whatever the other side sends for a proxy is stored and read from then on, and the proxy writes
    -- nothing: no value is echoed.
    pub deserialize_proxy-Settles : (p : PropertyFake qt base) (s : Store qt) → Settles p s
    unfolding deserialize_proxy set_deserialization set_proxy
    deserialize_proxy-Settles p (set_value v) = record {
      after = record p {
        deserialization_in_process = false;
        property_value = set p.property_value v;
      };
      silent = refl;
      reads = base.get-set p.property_value v;
      same_nid = refl;
      idle = refl;
    }
    deserialize_proxy-Settles p (sync_value v) = record {
      after = record p {
        deserialization_in_process = false;
        property_value = sync p.property_value v;
      };
      silent = refl;
      reads = base.get-sync p.property_value v;
      same_nid = refl;
      idle = refl;
    }

  module _ (p : PropertyFake qt base) (v : Value qt) where
    abbrev pub type_name : List ℕ
    type_name = names.name (type_of names qt v)

    -- `set_value` of a proxy that no deserialization is in process on, all the way round, for a value with
    -- at least one byte, and no NUL character where it is a text, between properties of its type: its notice makes the server store the value in the
    -- property with the id and notify its listeners; the notice that the server's `updated` then writes
    -- makes this side store the value in the proxy and notify; the proxy writes nothing more, and reads
    -- the value. The server tracks its property `n` under the proxy's id, and this side the proxy `k`.
    pub set_proxy-Settles :
        (tree tree' : TreeApi.Tree api) (server client : NodeSync) (n k : ℕ) (w w' : Value qt)
        → (fake : Option Bool) → p.deserialization_in_process ≡ false
        → IsSound names qt v
        → IsValue names qt w
        → IsValue names qt w'
        → type_of names qt w ≡ type_of names qt v
        → type_of names qt w' ≡ type_of names qt v
        → p.nid < 2 ^ 64
        → length (wire names qt v) < 2 ^ 30
        → length (wire names qt v) ≢ 0
        → find p.nid server.tracked ≡ some (some n)
        → find_nid n server.tracked ≡ some p.nid
        → api.property tree n ≡ some (node_of names qt api w fake)
        → get_node client p.nid ≡ some k
        → api.property tree' k ≡ some (node_of names qt api w' (some false))
        → (p' : PropertyFake qt base) × (request notice : Package) × (set_proxy qt base api
              (init names)
              type_name
              p
              v
            ≡ some (p', some request))
          × (cmd_prop_value qt api (init names) tree server request
              ≡ some (server, stores n (store names qt v) ∷ notify_change n ∷ []))
          × (updated qt api (init names) server empty n (property names qt v) ≡ some notice)
          × (process_prop_value qt api (init names) tree' client notice
              ≡ some (stores k (store names qt v) ∷ notify_change k ∷ []))
          × (p'' : PropertyFake qt base) × (deserialize_proxy qt base api
                (init names)
                type_name
                p'
                (store names qt v)
              ≡ some (p'', none))
          × (get p''.property_value ≡ v)
    unfolding set_proxy request_set
    set_proxy-Settles tree tree' server client n k w w' fake idle hv hw hw' ht ht' hn hl he ef en ep
          ek eq =
        let (request, asked, taken) =
          cmd_prop_value-request names qt api tree server n p.nid v w fake hv hw ht hn hl he ef
            ep in
        let (notice, told, heard) =
          process_prop_value-updated names qt api tree' server client n k p.nid v w' hv hw' ht' hn
            hl en ek eq in
        let p' : PropertyFake qt base = record p { property_value = set p.property_value v } in
        let settled = deserialize_proxy-Settles type_name p' (store names qt v) in
        (
          p',
          request,
          notice,
          rw idle (rw asked refl),
          taken,
          told,
          heard,
          settled.after,
          settled.silent,
          settled.reads ∙ value_of-store v,
        )

    -- `get_value` of a proxy that no deserialization is in process on, at a `node_sync` that no update is in
    -- process on (otherwise the value of before is read), where the server's value is of the proxy's type
    -- and has no NUL character where it is a text: `update_prop` asks the server, whose answer is
    -- stored in the proxy, and the server's value is what is read.
    pub get_value-Settles :
        (tree tree' : TreeApi.Tree api) (server client : NodeSync) (n k : ℕ) (w : Value qt)
        → (fake : Option Bool) → IsSound names qt v
        → IsValue names qt w
        → type_of names qt w ≡ type_of names qt v
        → p.nid < 2 ^ 64
        → length (wire names qt v) < 2 ^ 30
        → get_node server p.nid ≡ some n
        → api.property tree n ≡ some (node_of names qt api v fake)
        → get_node client p.nid ≡ some k
        → api.property tree' k ≡ some (node_of names qt api w (some false))
        → (req resp : Package) × (update_request qt api (init names) tree' client false p.nid
            ≡ some req)
          × (cmd_get_prop qt api (init names) tree server (req ++ replicate 9 0) ≡ some resp)
          × (update_response qt api
                (init names)
                k
                (node_of names qt api w (some false))
                (resp ++ replicate 18 0)
              ≡ some (stores k (store names qt v) ∷ []))
          × (p' : PropertyFake qt base) × (get_value qt base api
                (init names)
                type_name
                p
                (store names qt v ∷ [])
              ≡ some (p', v))
    unfolding get_value
    get_value-Settles tree tree' server client n k w fake hv hw ht hn hl es ep ec eq =
        let (req, resp, asks, answers, arrives) =
          update_response-cmd_get_prop names qt api tree tree' server client n k p.nid v w fake hv
            hw ht hn hl es ep ec eq in
        let settled = deserialize_proxy-Settles type_name p (store names qt v) in
        (
          req,
          resp,
          asks,
          answers,
          arrives,
          settled.after,
          rw settled.silent (ap (λ x. some (settled.after, x)) (settled.reads ∙ value_of-store v)),
        )
