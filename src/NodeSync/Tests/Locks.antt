-- ===== src/NodeSync/Tests/Locks.antt =====
-- Two sides that fetch at once, and an update that arrives.
use treeipc.Base.{
  ◌≡◌, ◌⊎◌, refl, subst, Bool, Option, [], ◌∷◌, arith, true, false, none, some, ◌==◌, if◌then◌else◌,
}
use treeipc.Types.Samples.{byte_names, utf_eight}
use treeipc.Package.{empty}
use treeipc.Package.Commands.{cmd_prop_value_updated}
use treeipc.Serializer.{init}
use treeipc.Serializer.RoundTrip.{IsValue, property, store}
use treeipc.Generator.{new_generator}
use treeipc.NodeSync.Tree.{PropertyNode}
use treeipc.NodeSync.State.{find, find_nid, assign, get_node}
use treeipc.Connection.Change.{process_package-updated}
use treeipc.NodeSync.Values.{value_package, stores, notify_change}
use treeipc.NodeSync.Values.Typing.{HoldsValues}
use treeipc.NodeSync.Process.{process_package, to_property}
use treeipc.NodeSync.Process.Typing.{AllWorkTyped, process_package-typed}
use treeipc.NodeSync.Locks.{
  resting, waits, idle, looking, Side, new_side, call, take, first, second, Steps, here, after,
  Reach,
}
use treeipc.NodeSync.Locks.Waiting.{Rests, Steps-both_wait, Reach-cases}
use treeipc.NodeSync.Tests.Samples.{seven, five, small_tree, serving}

-- Both sides are in `fetch_node`, before either request is taken from its queue.
abbrev asked_both : Side
asked_both = record { caller = waits true; worker = idle; inbox = true }

abbrev looking_both : Side
looking_both = record { caller = waits true; worker = looking; inbox = false }

both_ask : Reach asked_both asked_both
both_ask = after (after here (first (call true refl))) (second (call true refl))

both_look : Steps asked_both asked_both looking_both looking_both
both_look = after (after here (first (take refl refl))) (second (take refl refl))

Steps-both_wait_example : (looking_both.caller ≡ waits true) × (looking_both.caller ≡ waits true)
Steps-both_wait_example = Steps-both_wait both_look refl refl

-- One side fetches, and the other one has its request.
asks : Reach (record new_side { caller = waits true }) (record new_side { inbox = true })
asks = after here (first (call true refl))

Reach-cases_example :
    ((waits true ≡ waits true) × (resting ≡ waits true))
    ⊎ Rests (record new_side { caller = waits true }) (record new_side { inbox = true })
Reach-cases_example = Reach-cases asks

abbrev ValueIfAny : Option (PropertyNode utf_eight) → Type 0
ValueIfAny none = Unit
ValueIfAny (some p) = IsValue byte_names utf_eight p.property.value

value_at :
    (b : Bool)
    → ValueIfAny (
        if b
        then some (record { property = property byte_names utf_eight seven; fake = some false })
        else none)
value_at true = (omega arith, refl)
value_at false = tt

small_tree-HoldsValues : HoldsValues byte_names utf_eight small_tree (init byte_names) seven
small_tree-HoldsValues n p e = subst ValueIfAny e (value_at (n == 1))

one_tracked : find_nid 1 serving.tracked ≡ some 1
unfolding find_nid assign
one_tracked = refl

one_there : get_node serving 1 ≡ some 1
unfolding get_node find assign
one_there = refl

-- What this package does is a store.
five_stored :
    process_package utf_eight small_tree
      (init byte_names)
      (new_generator byte_names)
      seven
      serving
      empty
      8
      (value_package cmd_prop_value_updated 1 (5 ∷ 0 ∷ 0 ∷ 0 ∷ []))
    ≡ some (
      serving,
      to_property (stores 1 (store byte_names utf_eight five)) ∷ to_property (notify_change 1) ∷ [],
    )
five_stored =
    process_package-updated byte_names utf_eight small_tree (new_generator byte_names) seven serving
      serving empty 8 1 1 1 five seven (omega arith, refl) (omega arith, refl) refl (omega arith)
      (omega arith) one_tracked one_there refl

process_package-typed_example :
    AllWorkTyped byte_names utf_eight small_tree (init byte_names) seven (
      process_package utf_eight small_tree
        (init byte_names)
        (new_generator byte_names)
        seven
        serving
        empty
        8
        (value_package cmd_prop_value_updated 1 (5 ∷ 0 ∷ 0 ∷ 0 ∷ [])))
process_package-typed_example =
    process_package-typed byte_names utf_eight small_tree (init byte_names) seven
      small_tree-HoldsValues (new_generator byte_names) empty 8 serving
      (value_package cmd_prop_value_updated 1 (5 ∷ 0 ∷ 0 ∷ 0 ∷ []))
