-- ===== src/NodeSync/Values/Sync.antt =====
-- A property's value on one side is its value on the other, by each of the three ways.
use treeipc.Base.{
  ℕ, ◌<◌, ◌^◌, ◌≡◌, ◌≢◌, refl, sym, ap, ◌∙◌, List, [], ◌∷◌, ◌++◌, length, replicate, resize, Bool,
  false, Option, none, some, arith, append-nil, ne→==, ==_refl,
}
use treeipc.Types.{qstring, qbytearray, TypeNames, QtText}
use treeipc.Package.{Package, empty, get_nid, append, read, data_size, copied}
use treeipc.Package.Commands.{
  cmd_prop_get_value, cmd_prop_get_value_success, cmd_prop_value_updated, cmd_prop_set_value,
}
use treeipc.Package.Layout.{build, append-build, get_nid-build, length-build}
use treeipc.Package.Read.{read-at}
use treeipc.Package.Text.{filled}
use treeipc.Serializer.{
  Value, object, text, bytes, init, serialize, serialize_with, serialize_object, serialize_property,
}
use treeipc.Serializer.Registry.{lookup-init}
use treeipc.Serializer.RoundTrip.{
  type_of, property, IsSound, IsValue, store, wire, serialize_lem, deserialize-serialize,
  plain-serializer,
}
use treeipc.NodeSync.State.{
  NodeSync, get_node, get_node_nid, find, touch, find_nid, assign, Tracked,
}
use treeipc.NodeSync.Tracking.{find-assign}
use treeipc.NodeSync.Wire.{header, header_lem, build-zeros}
use treeipc.NodeSync.Tree.{TreeApi, PropertyNode}
use treeipc.NodeSync.Values.{
  value_package, read_value, get_nid-value_package, read_value-value_package, stores, notify_change,
  get_prop, cmd_get_prop, updated, process_prop_value, update_request, update_response,
  cmd_prop_value, request_prop_set_value,
}

touch_found : (nid : ℕ) (m : Tracked) (v : Option ℕ) → find nid m ≡ some v → touch nid m ≡ m
unfolding touch
touch_found nid m v e = rw e refl

get_node_found :
    (s : NodeSync) (nid n : ℕ) → find nid s.tracked ≡ some (some n) → get_node s nid ≡ some n
unfolding get_node
get_node_found s nid n e = rw e refl

data_size-build :
    (cmd nid : ℕ) (buf : List ℕ) → length buf < 2 ^ 30 → data_size (build cmd nid buf) ≡ length buf
unfolding data_size
data_size-build cmd nid buf h = omega (arith, length-build cmd nid buf)

read_whole :
    (cmd nid : ℕ) (buf : List ℕ)
    → length buf < 2 ^ 30
    → read (build cmd nid buf) 0 (length buf) ≡ copied buf
read_whole cmd nid buf h =
    ap (λ d. read (build cmd nid d) 0 (length buf)) (sym (append-nil buf))
    ∙ read-at cmd nid [] buf [] 0 (length buf) refl refl (omega arith)

module _ (names : TypeNames) (qt : QtText) (api : TreeApi qt) where
  open api use {Tree}

  -- The node of a property of a value's type.
  abbrev pub node_of : Value qt → Option Bool → PropertyNode qt
  node_of v fake = record { property = property names qt v; fake = fake }

  -- A change of a server's property: the notice that `updated` writes makes a client that tracks its own
  -- property under the same id store the value and then notify its listeners.
  pub process_prop_value-updated :
      (tree : Tree) (server client : NodeSync) (n k nid : ℕ) (v w : Value qt)
      → IsSound names qt v
      → IsValue names qt w
      → type_of names qt w ≡ type_of names qt v
      → nid < 2 ^ 64
      → length (wire names qt v) < 2 ^ 30
      → find_nid n server.tracked ≡ some nid
      → get_node client nid ≡ some k
      → api.property tree k ≡ some (node_of w (some false))
      → (p : Package) × (updated qt api (init names) server empty n (property names qt v) ≡ some p)
        × (process_prop_value qt api (init names) tree client p
            ≡ some (stores k (store names qt v) ∷ notify_change k ∷ []))
  unfolding updated get_node_nid process_prop_value
  process_prop_value-updated tree server client n k nid v w hv hw ht hn hl ef eg ep = (
    value_package cmd_prop_value_updated nid buf,
    rw ef refl,
    rw (arrives, eg, ep) (rw payload (rw (deserialize-serialize names qt v w hv hw ht) refl)),
  )
    where
      buf : List ℕ
      buf = serialize qt (init names) (property names qt v)

      arrives : get_nid (value_package cmd_prop_value_updated nid buf) ≡ some nid
      arrives =
          ap get_nid (sym (append-nil (value_package cmd_prop_value_updated nid buf)))
          ∙ get_nid-value_package cmd_prop_value_updated nid buf 0 hn

      payload : read_value (value_package cmd_prop_value_updated nid buf) ≡ some buf
      payload =
          ap read_value (sym (append-nil (value_package cmd_prop_value_updated nid buf)))
          ∙ read_value-value_package cmd_prop_value_updated nid buf 0
              (rw (serialize_lem names qt v hv) hl)

  -- A client's `update_prop`, with no update in process: it asks for the value, and the server's
  -- answer, over the copies that `send` and its reply make, is stored; listeners are not notified.
  pub update_response-cmd_get_prop :
      (tree tree' : Tree) (server client : NodeSync) (n k nid : ℕ) (v w : Value qt)
      → (fake : Option Bool) → IsSound names qt v
      → IsValue names qt w
      → type_of names qt w ≡ type_of names qt v
      → nid < 2 ^ 64
      → length (wire names qt v) < 2 ^ 30
      → get_node server nid ≡ some n
      → api.property tree n ≡ some (node_of v fake)
      → get_node client nid ≡ some k
      → api.property tree' k ≡ some (node_of w (some false))
      → (req resp : Package) × (update_request qt api (init names) tree' client false nid
          ≡ some req)
        × (cmd_get_prop qt api (init names) tree server (req ++ replicate 9 0) ≡ some resp)
        × (update_response qt api (init names) k (node_of w (some false)) (resp ++ replicate 18 0)
            ≡ some (stores k (store names qt v) ∷ []))
  unfolding update_request cmd_get_prop get_prop update_response
  update_response-cmd_get_prop tree tree' server client n k nid v w fake hv hw ht hn hl es ep ec
        eq =
      (
        header cmd_prop_get_value nid,
        value_package cmd_prop_get_value_success nid buf,
        rw (ec, eq) refl,
        rw (header_lem cmd_prop_get_value nid, build-zeros cmd_prop_get_value nid [] 9)
            (rw (get_nid-build cmd_prop_get_value nid (replicate 9 0) hn) (rw (es, ep) refl)),
        rw
            (read_value-value_package cmd_prop_get_value_success nid buf 18
              (rw (serialize_lem names qt v hv) hl))
            (rw (deserialize-serialize names qt v w hv hw ht) refl),
      )
    where
      buf : List ℕ
      buf = serialize qt (init names) (property names qt v)

  serialize_with_lem :
      (v : Value qt)
      → IsSound names qt v
      → serialize_with qt (init names) (names.name (type_of names qt v)) v
        ≡ some (serialize qt (init names) (property names qt v))
  unfolding serialize_with serialize_object serialize serialize_property
  serialize_with_lem (object t mem) h =
      rw (lookup-init names t, plain-serializer t h.0) (rw (==_refl) refl)
  serialize_with_lem (text q) h = rw (lookup-init names qstring) refl
  serialize_with_lem (bytes b) h = rw (lookup-init names qbytearray) refl

  -- A value that a client's proxy is set to: the package that `request_prop_set_value` writes makes the
  -- server store the value in the property with the id and then notify its listeners, and the map of
  -- tracked nodes stays as it was. The value's bytes must not be none at all.
  pub cmd_prop_value-request :
      (tree : Tree) (server : NodeSync) (n nid : ℕ) (v w : Value qt) (fake : Option Bool)
      → IsSound names qt v
      → IsValue names qt w
      → type_of names qt w ≡ type_of names qt v
      → nid < 2 ^ 64
      → length (wire names qt v) < 2 ^ 30
      → length (wire names qt v) ≢ 0
      → find nid server.tracked ≡ some (some n)
      → api.property tree n ≡ some (node_of w fake)
      → (p : Package) × (request_prop_set_value qt api
            (init names)
            (names.name (type_of names qt v))
            nid
            v
          ≡ some (some p))
        × (cmd_prop_value qt api (init names) tree server p
            ≡ some (server, stores n (store names qt v) ∷ notify_change n ∷ []))
  unfolding request_prop_set_value cmd_prop_value
  cmd_prop_value-request tree server n nid v w fake hv hw ht hn hl he ef ep = (
    append (header cmd_prop_set_value nid) buf,
    rw (serialize_with_lem v hv)
        (rw (ne→== (length buf) 0 (rw (serialize_lem names qt v hv) he)) refl),
    rw (shape, get_nid-build cmd_prop_set_value nid buf hn, touched)
        (rw (node, ep) (rw whole (rw (deserialize-serialize names qt v w hv hw ht) refl))),
  )
    where
      buf : List ℕ
      buf = serialize qt (init names) (property names qt v)

      size : length buf < 2 ^ 30
      size = rw (serialize_lem names qt v hv) hl

      shape : append (header cmd_prop_set_value nid) buf ≡ build cmd_prop_set_value nid buf
      shape =
          ap (λ p. append p buf) (header_lem cmd_prop_set_value nid)
          ∙ append-build cmd_prop_set_value nid [] buf

      touched : touch nid server.tracked ≡ server.tracked
      touched = touch_found nid server.tracked (some n) ef

      node : get_node server nid ≡ some n
      node = get_node_found server nid n ef

      whole :
          filled (resize (data_size (build cmd_prop_set_value nid buf)) 0 []) (
            read
              (build cmd_prop_set_value nid buf)
              0
              (data_size (build cmd_prop_set_value nid buf)))
          ≡ some buf
      whole =
          rw (data_size-build cmd_prop_set_value nid buf size)
            (rw (read_whole cmd_prop_set_value nid buf size) refl)

  -- A value for an id that the server does not track changes no property, and leaves a null pointer under
  -- the id in the map.
  pub cmd_prop_value_unknown :
      (tree : Tree) (server : NodeSync) (nid : ℕ) (buf : List ℕ)
      → nid < 2 ^ 64
      → find nid server.tracked ≡ none
      → let server' = record server { tracked = touch nid server.tracked } in
        (cmd_prop_value qt api (init names) tree server (append (header cmd_prop_set_value nid) buf)
          ≡ some (server', []))
        × (find nid server'.tracked ≡ some none)
  unfolding cmd_prop_value get_node touch
  cmd_prop_value_unknown tree server nid buf hn e = (
    rw
        (ap (λ p. append p buf) (header_lem cmd_prop_set_value nid)
          ∙ append-build cmd_prop_set_value nid [] buf)
        (rw (get_nid-build cmd_prop_set_value nid buf hn) (rw e (rw null refl))),
    rw e null,
  )
    where
      null : find nid (assign nid none server.tracked) ≡ some none
      null = find-assign nid nid none server.tracked ∙ rw (==_refl nid) refl
