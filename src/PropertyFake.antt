-- ===== src/PropertyFake.antt =====
-- property_fake.h, property_fake.cpp and property_value_fake.h: the client's stand-in for a property of
-- the other side. `property_value<type>`, on which it is built, is code of the tree.
pub mod Proxy
pub mod Tests
use treeipc.Base.{
  ℕ, List, [], ◌∷◌, Bool, true, false, Option, none, some, ◌==◌, if◌then◌else◌, ◌≡◌, ◌>>=◌,
}
use treeipc.Types.{QtText, TypeNames}
use treeipc.Package.{Package}
use treeipc.Serializer.{Machine, Value, Store, set_value, sync_value}
use treeipc.NodeSync.State.{NodeSync}
use treeipc.NodeSync.Subscribe.{subscribe, unsubscribe}
use treeipc.NodeSync.Tree.{TreeApi}
use treeipc.NodeSync.Values.{Effect, stores, notify_change, request_prop_set_value}

-- What `property_value<type>` keeps, and its operations: `get_listeners().size()` is `listeners`, and
-- `sync` is its `sync_value`. A value that is stored is the value that is read.
pub record PropertyValue (qt : QtText) : Type 1 where
  pub Base : Type 0
  pub set : Base → Value qt → Base
  pub sync : Base → Value qt → Base
  pub get : Base → Value qt
  pub add : Base → ℕ → Base
  pub remove : Base → ℕ → Base
  pub listeners : Base → ℕ
  pub get-set : (b : Base) (v : Value qt) → get (set b v) ≡ v
  pub get-sync : (b : Base) (v : Value qt) → get (sync b v) ≡ v

module _ (qt : QtText) (base : PropertyValue qt) where
  open base use {Base, set, sync, get, add, remove, listeners}

  pub record PropertyFake : Type 0 where
    pub nid : ℕ
    pub deserialization_in_process : Bool
    pub property_value : Base

  -- The constructor, of a property whose base is new.
  abbrev pub new_property_fake : ℕ → Base → PropertyFake
  new_property_fake nid b = record {
    nid = nid;
    deserialization_in_process = false;
    property_value = b;
  }

  unfoldable pub set_deserialization : PropertyFake → Bool → PropertyFake
  set_deserialization p in_process = record p { deserialization_in_process = in_process }

  unfoldable pub set_nid : PropertyFake → ℕ → PropertyFake
  set_nid p n = record p { nid = n }

  -- `add_listener` and `remove_listener`, with the notices that they write: the first listener
  -- subscribes, and the last one to go unsubscribes.
  unfoldable pub add_listener : PropertyFake → ℕ → PropertyFake × List Package
  add_listener p l =
      let b = add p.property_value l in
      (record p { property_value = b }, if listeners b == 1 then subscribe p.nid ∷ [] else [])

  unfoldable pub remove_listener : PropertyFake → ℕ → PropertyFake × List Package
  remove_listener p l =
      let b = remove p.property_value l in
      (record p { property_value = b }, if listeners b == 0 then unsubscribe p.nid ∷ [] else [])

  module _ (api : TreeApi qt) (m : Machine) (type : List ℕ) where
    -- `request_set`, of a property that is a `property_base` of the type named.
    unfoldable pub request_set : PropertyFake → Value qt → Option (Option Package)
    request_set p v = request_prop_set_value qt api m type p.nid v

    abbrev pub with_request :
        PropertyFake → Option (Option Package) → Option (PropertyFake × Option Package)
    with_request p none = none
    with_request p (some request) = some (p, request)

    -- `set_value`: the property, and the notice that it writes, if it does.
    unfoldable pub set_proxy : PropertyFake → Value qt → Option (PropertyFake × Option Package)
    set_proxy p v =
        let p = record p { property_value = set p.property_value v } in
        if p.deserialization_in_process then some (p, none) else with_request p (request_set p v)

    -- What the serializer stores, by `set_value` or by `sync_value`.
    abbrev pub store_proxy : PropertyFake → Store qt → Option (PropertyFake × Option Package)
    store_proxy p (set_value v) = set_proxy p v
    store_proxy p (sync_value v) =
        some (record p { property_value = sync p.property_value v }, none)

    abbrev pub after_store :
        Option (PropertyFake × Option Package) → Option (PropertyFake × Option Package)
    after_store none = none
    after_store (some (p, request)) = some (set_deserialization p false, request)

    -- The store of `process_prop_value` and of `update_prop`, between the two `set_deserialization`s.
    unfoldable pub deserialize_proxy :
        PropertyFake → Store qt → Option (PropertyFake × Option Package)
    deserialize_proxy p s = after_store (store_proxy (set_deserialization p true) s)

    -- `get_value`, after `update_value` has called `update_prop`: what that stored in this property.
    unfoldable pub get_value : PropertyFake → List (Store qt) → Option (PropertyFake × Value qt)
    get_value p [] = some (p, get p.property_value)
    get_value p (s ∷ more) = do (p, request) ← deserialize_proxy p s; get_value p more
