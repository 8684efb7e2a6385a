-- ===== src/Connection/Change.antt =====
-- A property that changes on one side, all the way to the proxy of the other side: `updated`, the stream,
-- the queue and its thread, `process_prop_value` and the proxy's store.
use treeipc.Base.{
  ℕ, ◌<◌, ◌^◌, ◌≡◌, refl, sym, subst, ap, ◌∙◌, List, [], ◌∷◌, ◌++◌, map, length, flatten, false,
  none, some, true, arith, append-nil, length-append, length-le_bytes, le_bytes,
}
use treeipc.Types.{TypeNames, QtText}
use treeipc.Package.{Package, empty, get_cmd}
use treeipc.Package.Commands.{cmd_prop_value_updated}
use treeipc.Package.Layout.{build, length-build, get_cmd-build}
use treeipc.Serializer.{Value, init}
use treeipc.Serializer.RoundTrip.{property, type_of, IsSound, IsValue, wire, store, serialize_lem}
use treeipc.Generator.{Generator}
use treeipc.Transport.{Transport}
use treeipc.Queue.{pop}
use treeipc.Codec.{new_codec}
use treeipc.Dispatcher.{write_notice}
use treeipc.NodeSync.State.{NodeSync, find_nid, get_node, get_node_nid}
use treeipc.NodeSync.Tree.{TreeApi}
use treeipc.NodeSync.Values.{
  value_package, value_package_lem, updated, process_prop_value, stores, notify_change,
}
use treeipc.NodeSync.Values.Sync.{node_of, process_prop_value-updated}
use treeipc.NodeSync.Process.{to_property, process_package, property_only}
use treeipc.NodeSync.Process.Subscription.{process_package-build}
use treeipc.PropertyFake.{PropertyValue, PropertyFake, deserialize_proxy}
use treeipc.PropertyFake.Proxy.{deserialize_proxy-Settles, value_of-store}
use treeipc.Connection.{Receiver, on_stream}
use treeipc.Connection.Delivery.{IsNotice, none_left, first, on_stream-Writes}

-- The one package in a queue.
pop_only :
    (q : List (ℕ × Package)) (p : Package)
    → map (λ e. e.1) q ≡ p ∷ []
    → (a : ℕ) × (pop q ≡ some ((a, p), []))
unfolding pop
pop_only [] p e = absurd (cc)
pop_only ((a, x) ∷ []) p e = (a, cc)
pop_only (x ∷ y ∷ q) p e = absurd (cc)

module _ (cmd nid : ℕ) (buf : List ℕ) where
  pub value_package-build :
      value_package cmd nid buf ≡ build cmd nid (le_bytes 4 (length buf) ++ buf)
  value_package-build =
      sym (append-nil (value_package cmd nid buf))
      ∙ value_package_lem cmd nid buf 0
      ∙ ap (λ d. build cmd nid (le_bytes 4 (length buf) ++ d)) (append-nil buf)

value_package-IsNotice :
    (nid : ℕ) (buf : List ℕ)
    → length buf < 2 ^ 29
    → IsNotice (value_package cmd_prop_value_updated nid buf)
value_package-IsNotice nid buf h =
    let body = le_bytes 4 (length buf) ++ buf in
    let same = value_package-build cmd_prop_value_updated nid buf in
    record {
      short = omega (
        arith,
        h,
        ap length same,
        length-build cmd_prop_value_updated nid body,
        length-append (le_bytes 4 (length buf)) buf,
        length-le_bytes 4 (length buf),
      );
      cmd = cmd_prop_value_updated;
      has_cmd = ap get_cmd same ∙ get_cmd-build cmd_prop_value_updated nid body (omega arith);
      no_request = omega arith;
    }

module _ (names : TypeNames) (qt : QtText) (api : TreeApi qt) (g : Generator) where
  open api use {Tree}

  pub updated_lem :
      (server : NodeSync) (n nid : ℕ) (v : Value qt)
      → IsSound names qt v
      → find_nid n server.tracked ≡ some nid
      → updated qt api (init names) server empty n (property names qt v)
        ≡ some (value_package cmd_prop_value_updated nid (wire names qt v))
  unfolding updated get_node_nid
  updated_lem server n nid v h e = rw (e, serialize_lem names qt v h) refl

  process_package-value_package :
      (tree : Tree) (s : NodeSync) (rep : Package) (address nid : ℕ) (buf : List ℕ)
      → let p = value_package cmd_prop_value_updated nid buf in
        process_package qt api (init names) g tree s rep address p
        ≡ property_only qt s (process_prop_value qt api (init names) tree s p)
  process_package-value_package tree s rep address nid buf =
      let same = value_package-build cmd_prop_value_updated nid buf in
      ap (process_package qt api (init names) g tree s rep address) same
      ∙ process_package-build qt api (init names) g tree s rep address cmd_prop_value_updated nid
          (le_bytes 4 (length buf) ++ buf) (omega arith)
      ∙ ap (λ p. property_only qt s (process_prop_value qt api (init names) tree s p)) (sym same)

  -- A value whose notice arrives.
  pub process_package-updated :
      (tree : Tree) (server client : NodeSync) (rep : Package) (address n k nid : ℕ)
      (v w : Value qt)
      → IsSound names qt v
      → IsValue names qt w
      → type_of names qt w ≡ type_of names qt v
      → nid < 2 ^ 64
      → length (wire names qt v) < 2 ^ 29
      → find_nid n server.tracked ≡ some nid
      → get_node client nid ≡ some k
      → api.property tree k ≡ some (node_of names qt api w (some false))
      → process_package qt api
          (init names)
          g
          tree
          client
          rep
          address
          (value_package cmd_prop_value_updated nid (wire names qt v))
        ≡ some
            (client, to_property (stores k (store names qt v)) ∷ to_property (notify_change k) ∷ [])
  process_package-updated tree server client rep address n k nid v w hv hw ht hn hl ef eg ep =
      let (p, e, f) =
        process_prop_value-updated names qt api tree server client n k nid v w hv hw ht hn
          (omega (arith, hl)) ef eg ep in
      let same : p ≡ value_package cmd_prop_value_updated nid (wire names qt v) =
        cc (e, updated_lem server n nid v hv ef) in
      process_package-value_package tree client rep address nid (wire names qt v)
      ∙ ap (λ q. property_only qt client (process_prop_value qt api (init names) tree client q))
          (sym same)
      ∙ ap (property_only qt client) f

module _ (t : Transport) (names : TypeNames) (qt : QtText) (api : TreeApi qt) (g : Generator)
    (base : PropertyValue qt) where
  open t use {State, sent}
  open api use {Tree}

  -- A value that a property has changed to, of the proxy's type, of fewer than 2 ^ 29 bytes, and without a
  -- NUL character where it is a text, where the server tracks the
  -- property, the client tracks a proxy of the same type under the same id and nothing waits in its queue,
  -- and the notice of `updated` is written with success over a fresh transport: however the transport
  -- cuts the bytes, the client's thread pops that notice, and what it does is to store the value in the proxy
  -- and to notify its listeners; the proxy writes nothing back and holds the value from then on.
  pub on_stream-updated :
      (tree : Tree) (server : NodeSync) (s s' : State) (r : Receiver t) (rep notice : Package)
      (chunks : List (List ℕ)) (n k nid address : ℕ) (v w : Value qt) (proxy : PropertyFake qt base)
      → IsSound names qt v
      → IsValue names qt w
      → type_of names qt w ≡ type_of names qt v
      → nid < 2 ^ 64
      → length (wire names qt v) < 2 ^ 29
      → find_nid n server.tracked ≡ some nid
      → get_node r.node nid ≡ some k
      → api.property tree k ≡ some (node_of names qt api w (some false))
      → r.queue ≡ []
      → updated qt api (init names) server empty n (property names qt v) ≡ some notice
      → sent s ≡ []
      → write_notice t (some s) notice ≡ (some s', true)
      → flatten chunks ≡ sent s'
      → (r' : Receiver t) × (a : ℕ) × (after : PropertyFake qt base) × (on_stream t rep new_codec r
            chunks
          ≡ some (new_codec, r'))
        × (pop r'.queue ≡ some ((a, notice), []))
        × (process_package qt api (init names) g tree r'.node rep address notice
            ≡ some (
              r'.node,
              to_property (stores k (store names qt v)) ∷ to_property (notify_change k) ∷ [],
            ))
        × (deserialize_proxy qt base api
              (init names)
              (names.name (type_of names qt v))
              proxy
              (store names qt v)
            ≡ some (after, none))
        × (base.get after.property_value ≡ v)
  on_stream-updated tree server s s' r rep notice chunks n k nid address v w proxy hv hw ht hn hl ef
        eg ep queue told fresh written cut =
      let is_value : value_package cmd_prop_value_updated nid (wire names qt v) ≡ notice =
        cc (told, updated_lem names qt api g server n nid v hv ef) in
      let is_notice = subst IsNotice is_value (value_package-IsNotice nid (wire names qt v) hl) in
      let (r', taken, d) =
        on_stream-Writes t rep r chunks (is_notice, tt) fresh (first written (none_left s')) cut in
      let (a, popped) =
        pop_only r'.queue notice (d.in_queue ∙ ap (λ q. map (λ e. e.1) q ++ (notice ∷ [])) queue) in
      let settled =
        deserialize_proxy-Settles names qt base api (names.name (type_of names qt v)) proxy
          (store names qt v) in
      (
        r',
        a,
        settled.after,
        taken,
        popped,
        ap (process_package qt api (init names) g tree r'.node rep address) (sym is_value)
            ∙ process_package-updated names qt api g tree server r'.node rep address n k nid v w hv
                hw ht hn hl ef (ap (λ c. get_node c nid) d.same_node ∙ eg) ep,
        settled.silent,
        settled.reads ∙ value_of-store names qt base api v,
      )
