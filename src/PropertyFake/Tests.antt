-- ===== src/PropertyFake/Tests.antt =====
-- The proxy of an integer, between a server that has 5 and is asked to take 7, and its client.
use treeipc.Base.{
  ℕ, ◌+◌, ◌≡◌, refl, [], ◌∷◌, ◌++◌, replicate, true, false, none, some, arith, ◌==◌, if◌then◌else◌,
}
use treeipc.Types.{int}
use treeipc.Types.Samples.{byte_names, utf_eight}
use treeipc.Package.{Package, empty}
use treeipc.Serializer.{Value, init}
use treeipc.Serializer.RoundTrip.{property, store}
use treeipc.NodeSync.State.{NodeSync, find, find_nid, get_node}
use treeipc.NodeSync.Tree.{TreeApi}
use treeipc.NodeSync.Values.{
  stores, notify_change, updated, process_prop_value, update_request, cmd_get_prop, update_response,
  cmd_prop_value,
}
use treeipc.PropertyFake.{
  PropertyValue, PropertyFake, new_property_fake, set_proxy, deserialize_proxy, get_value,
}
use treeipc.PropertyFake.Proxy.{set_proxy-Settles, get_value-Settles}
use treeipc.Serializer.{object}

abbrev seven : Value utf_eight
seven = object int (7 ∷ 0 ∷ 0 ∷ 0 ∷ [])

abbrev five : Value utf_eight
five = object int (5 ∷ 0 ∷ 0 ∷ 0 ∷ [])

-- A value and the number of its listeners.
abbrev pub counted : PropertyValue utf_eight
counted = record {
  Base = Value utf_eight × ℕ;
  set = λ b v. (v, b.1);
  sync = λ b v. (v, b.1);
  get = λ b. b.0;
  add = λ b l. (b.0, b.1 + 1);
  remove = λ b l. (b.0, 0);
  listeners = λ b. b.1;
  get-set = λ b v. refl;
  get-sync = λ b v. refl;
}

-- A tree whose node 1 is the property that holds the value given.
abbrev one_property : TreeApi utf_eight
one_property = record {
  Tree = Value utf_eight;
  ls = λ t n. [];
  at = λ t n path. none;
  property = λ t n.
      if n == 1
      then some (record { property = property byte_names utf_eight t; fake = some false })
      else none;
}

-- Both sides have the node 1 under the id 3.
abbrev side : NodeSync
side = record { tracked = (3, some 1) ∷ []; current_nid = 4; root_node = none; is_server = true }

held : find 3 side.tracked ≡ some (some 1)
unfolding find
held = refl

named : find_nid 1 side.tracked ≡ some 3
unfolding find_nid
named = refl

at_three : get_node side 3 ≡ some 1
unfolding get_node find
at_three = refl

abbrev proxy : PropertyFake utf_eight counted
proxy = new_property_fake utf_eight counted 3 (five, 0)

set_proxy-Settles_example :
    (p : PropertyFake utf_eight counted) × (request notice : Package) × (set_proxy utf_eight counted
        one_property
        (init byte_names)
        (byte_names.name int)
        proxy
        seven
      ≡ some (p, some request))
    × (cmd_prop_value utf_eight one_property (init byte_names) five side request
        ≡ some (side, stores 1 (store byte_names utf_eight seven) ∷ notify_change 1 ∷ []))
    × (updated utf_eight one_property
          (init byte_names)
          side
          empty
          1
          (property byte_names utf_eight seven)
        ≡ some notice)
    × (process_prop_value utf_eight one_property (init byte_names) five side notice
        ≡ some (stores 1 (store byte_names utf_eight seven) ∷ notify_change 1 ∷ []))
    × (q : PropertyFake utf_eight counted) × (deserialize_proxy utf_eight counted one_property
          (init byte_names)
          (byte_names.name int)
          p
          (store byte_names utf_eight seven)
        ≡ some (q, none))
    × (q.property_value.0 ≡ seven)
set_proxy-Settles_example =
    set_proxy-Settles byte_names utf_eight counted one_property proxy seven five five side side 1 1
      five five (some false) refl (omega arith, refl) (omega arith, refl) (omega arith, refl) refl
      refl (omega arith) (omega arith) (omega arith) held named refl at_three refl

get_value-Settles_example :
    (req resp : Package) × (update_request utf_eight one_property
        (init byte_names)
        five
        side
        false
        3
      ≡ some req)
    × (cmd_get_prop utf_eight one_property (init byte_names) seven side (req ++ replicate 9 0)
        ≡ some resp)
    × (update_response utf_eight one_property
          (init byte_names)
          1
          (record { property = property byte_names utf_eight five; fake = some false })
          (resp ++ replicate 18 0)
        ≡ some (stores 1 (store byte_names utf_eight seven) ∷ []))
    × (p : PropertyFake utf_eight counted) × (get_value utf_eight counted one_property
          (init byte_names)
          (byte_names.name int)
          proxy
          (store byte_names utf_eight seven ∷ [])
        ≡ some (p, seven))
get_value-Settles_example =
    get_value-Settles byte_names utf_eight counted one_property proxy seven seven five side side 1 1
      five (some false) (omega arith, refl) (omega arith, refl) refl (omega arith) (omega arith)
      at_three refl at_three refl
