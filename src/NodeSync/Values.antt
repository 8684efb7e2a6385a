-- ===== src/NodeSync/Values.antt =====
-- Property values: `cmd_get_prop`, `updated` and `cmd_prop_value`, and on the other side `update_prop`,
-- `process_prop_value` and `request_prop_set_value`.
pub mod Sync
pub mod Typing
use treeipc.Base.{
  ℕ, ◌+◌, ◌%◌, ◌<◌, ◌^◌, ◌≡◌, ◌≢◌, refl, sym, ap, ◌∙◌, List, [], ◌∷◌, ◌++◌, length, replicate,
  resize, Bool, true, false, Option, none, some, ◌==◌, if◌then◌else◌, not, ◌>>=◌, arith, le_bytes,
  append_assoc, append-nil, length-append, length-le_bytes,
}
use treeipc.Types.{QtText, TypeNames}
use treeipc.Package.{Package, get_nid, get_cmd, append, append_word, read_word, read, data_size}
use treeipc.Package.Commands.{
  cmd_prop_get_value, cmd_prop_get_value_error, cmd_prop_get_value_success, cmd_prop_value_updated,
  cmd_prop_set_value,
}
use treeipc.Package.Layout.{build, append-build, get_nid-build, get_cmd-build}
use treeipc.Package.Read.{read_word-at, read-at}
use treeipc.Package.Text.{filled}
use treeipc.Serializer.{Machine, Value, Property, Store, serialize, serialize_with, deserialize}
use treeipc.NodeSync.State.{NodeSync, get_node, get_node_nid, find, touch}
use treeipc.NodeSync.Wire.{header, header_lem, build-zeros}
use treeipc.NodeSync.Tree.{TreeApi, PropertyNode}

-- A package with a buffer and its size.
unfoldable pub value_package : ℕ → ℕ → List ℕ → Package
value_package cmd nid buf = append (append_word 4 (header cmd nid) (length buf)) buf

-- The size and the buffer that `update_prop` and `process_prop_value` read.
unfoldable pub read_value : Package → Option (List ℕ)
read_value p = do sz ← read_word 4 p 0; filled (resize sz 0 []) (read p 4 sz)

pub value_package_lem :
    (cmd nid : ℕ) (buf : List ℕ) (k : ℕ)
    → value_package cmd nid buf ++ replicate k 0
      ≡ build cmd nid (le_bytes 4 (length buf) ++ (buf ++ replicate k 0))
unfolding value_package append_word
value_package_lem cmd nid buf k =
    ap (λ p. append (append p (le_bytes 4 (length buf))) buf ++ replicate k 0) (header_lem cmd nid)
    ∙ ap (λ p. append p buf ++ replicate k 0) (append-build cmd nid [] (le_bytes 4 (length buf)))
    ∙ ap (λ p. p ++ replicate k 0) (append-build cmd nid (le_bytes 4 (length buf)) buf)
    ∙ build-zeros cmd nid (le_bytes 4 (length buf) ++ buf) k
    ∙ ap (build cmd nid) (append_assoc (le_bytes 4 (length buf)) buf (replicate k 0))

-- The buffer arrives, whatever copies have added behind it.
pub read_value-value_package :
    (cmd nid : ℕ) (buf : List ℕ) (k : ℕ)
    → length buf < 2 ^ 30
    → read_value (value_package cmd nid buf ++ replicate k 0) ≡ some buf
unfolding read_value
read_value-value_package cmd nid buf k h = rw (value_package_lem cmd nid buf k) (
    rw
      (read_word-at 4 cmd nid [] (buf ++ replicate k 0) 0 (length buf) refl (omega arith)
        (omega arith))
      (rw
        (read-at cmd nid (le_bytes 4 (length buf)) buf (replicate k 0) 4 (length buf)
          (omega (arith, length-le_bytes 4 (length buf))) refl
          (omega (arith, length-le_bytes 4 (length buf))))
        refl))

pub get_nid-value_package :
    (cmd nid : ℕ) (buf : List ℕ) (k : ℕ)
    → nid < 2 ^ 64
    → get_nid (value_package cmd nid buf ++ replicate k 0) ≡ some nid
get_nid-value_package cmd nid buf k h =
    ap get_nid (value_package_lem cmd nid buf k)
    ∙ get_nid-build cmd nid (le_bytes 4 (length buf) ++ (buf ++ replicate k 0)) h

-- What an operation does to a property, in order.
pub data Effect (qt : QtText) : Type 0 where
  stores : ℕ → Store qt → Effect qt
  notify_change : ℕ → Effect qt

module _ (qt : QtText) (api : TreeApi qt) (m : Machine) where
  open api use {Tree}

  abbrev answer_get : ℕ → Option (PropertyNode qt) → Package
  answer_get nid none = header cmd_prop_get_value_error nid
  answer_get nid (some p) = value_package cmd_prop_get_value_success nid (serialize qt m p.property)

  -- The property under an id: `get_prop`.
  abbrev property_at : Tree → Option ℕ → Option (PropertyNode qt)
  property_at tree none = none
  property_at tree (some n) = api.property tree n

  unfoldable pub get_prop : Tree → NodeSync → ℕ → Option (PropertyNode qt)
  get_prop tree s nid = property_at tree (get_node s nid)

  -- `cmd_get_prop`: the reply to the request `p`.
  unfoldable pub cmd_get_prop : Tree → NodeSync → Package → Option Package
  cmd_get_prop tree s p = do nid ← get_nid p; some (answer_get nid (get_prop tree s nid))

  -- `updated`: the notice of a property's new value, under the id that the node has.
  abbrev notice : Property qt → Option (NodeSync × Option ℕ) → Option Package
  notice p none = none
  notice p (some (s, none)) = none
  notice p (some (s, some nid)) = some (value_package cmd_prop_value_updated nid (serialize qt m p))

  unfoldable pub updated : NodeSync → Package → ℕ → Property qt → Option Package
  updated s rep n p = notice p (get_node_nid s rep n false)

  -- The effect of `deserialize` on the property at a node: nothing where it returns false.
  abbrev store_at : ℕ → Option (Store qt) → List (Effect qt)
  store_at n none = []
  store_at n (some store) = stores n store ∷ []

  -- A `property_fake` that no deserialization is in process on.
  abbrev is_ready : Option Bool → Bool
  is_ready none = false
  is_ready (some in_process) = not in_process

  -- The body of `process_prop_value`: `after` follows the store.
  abbrev take_value : Package → ℕ → List (Effect qt) → PropertyNode qt → Option (List (Effect qt))
  take_value p n after node =
      if is_ready node.fake
      then (do buf ← read_value p; some (store_at n (deserialize qt m buf node.property) ++ after))
      else some []

  abbrev take_property :
      Package → ℕ → List (Effect qt) → Option (PropertyNode qt) → Option (List (Effect qt))
  take_property p n after none = some []
  take_property p n after (some node) = take_value p n after node

  abbrev take_at : Tree → Package → (ℕ → List (Effect qt)) → Option ℕ → Option (List (Effect qt))
  take_at tree p after none = some []
  take_at tree p after (some n) = take_property p n (after n) (api.property tree n)

  -- `process_prop_value`. `update_in_process` and the node's flag are up only while it runs.
  unfoldable pub process_prop_value : Tree → NodeSync → Package → Option (List (Effect qt))
  process_prop_value tree s p = do
    nid ← get_nid p
    take_at tree p (λ n. notify_change n ∷ []) (get_node s nid)

  -- `update_prop`: the request, where it gets so far (`busy` is `update_in_process`), and the rest.
  abbrev ask : ℕ → Option (PropertyNode qt) → Option Package
  ask nid none = none
  ask nid (some node) = if is_ready node.fake then some (header cmd_prop_get_value nid) else none

  unfoldable pub update_request : Tree → NodeSync → Bool → ℕ → Option Package
  update_request tree s busy nid = if busy then none else ask nid (get_prop tree s nid)

  -- What follows the response: `n` and `node` are what was found before the request, and nothing is
  -- looked up or tested again.
  unfoldable pub update_response : ℕ → PropertyNode qt → Package → Option (List (Effect qt))
  update_response n node rep = do
    buf ← read_value rep
    some (store_at n (deserialize qt m buf node.property))

  abbrev set_property :
      NodeSync → Package → ℕ → Option (PropertyNode qt) → Option (NodeSync × List (Effect qt))
  set_property s p n none = some (s, [])
  set_property s p n (some node) = do
    buf ← filled (resize (data_size p) 0 []) (read p 0 (data_size p))
    some (s, store_at n (deserialize qt m buf node.property) ++ (notify_change n ∷ []))

  abbrev set_at : Tree → NodeSync → Package → Option ℕ → Option (NodeSync × List (Effect qt))
  set_at tree s p none = some (s, [])
  set_at tree s p (some n) = set_property s p n (api.property tree n)

  -- `cmd_prop_value`, with the map after `tracked[nid]`.
  unfoldable pub cmd_prop_value : Tree → NodeSync → Package → Option (NodeSync × List (Effect qt))
  cmd_prop_value tree s p = do
    nid ← get_nid p
    let s = record s { tracked = touch nid s.tracked }
    set_at tree s p (get_node s nid)

  -- `request_prop_set_value` of a property that is a `property_fake` with the given id: the package that
  -- it writes, if it does.
  abbrev set_package : ℕ → List ℕ → Option Package
  set_package nid buf =
      if length buf == 0 then none else some (append (header cmd_prop_set_value nid) buf)

  unfoldable pub request_prop_set_value : List ℕ → ℕ → Value qt → Option (Option Package)
  request_prop_set_value type nid value = do
    buf ← serialize_with qt m type value
    some (set_package nid buf)
