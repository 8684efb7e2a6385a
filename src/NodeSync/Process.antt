-- ===== src/NodeSync/Process.antt =====
-- `process_package`: the switch over the commands, and the thread that runs it.

pub mod Thread
pub mod Shutdown
pub mod Typing
pub mod Subscription
use treeipc.Base.{
  ℕ, List, [], ◌∷◌, map, Bool, true, false, Option, none, some, ◌==◌, if◌then◌else◌, ◌>>=◌,
}
use treeipc.Types.{QtText}
use treeipc.Package.{Package, get_nid, get_cmd}
use treeipc.Package.Commands.{
  cmd_at, cmd_at_success, cmd_ls, cmd_prop_get_value, cmd_prop_value_updated, cmd_subscribe,
  cmd_unsubscribe, cmd_prop_set_value, cmd_node_attach, cmd_subscribe_add_remove, cmd_child_added,
}
use treeipc.Serializer.{Machine}
use treeipc.Generator.{Generator, client_node}
use treeipc.NodeSync.State.{NodeSync, do_track_as}
use treeipc.NodeSync.Tree.{TreeApi}
use treeipc.NodeSync.At.{cmd_at_handler}
use treeipc.NodeSync.Ls.{cmd_ls_handler}
use treeipc.NodeSync.Values.{Effect, process_prop_value, cmd_get_prop, cmd_prop_value}
use treeipc.NodeSync.Subscribe.{Listening, cmd_subscribe_handler, cmd_subscribe_add_remove_handler}
use treeipc.NodeSync.Children.{ChildEffect, makes, cmd_child_added_handler}
use treeipc.NodeSync.Attach.{cmd_attach}

-- What the handlers do beside their changes of the state, in order.
pub data Work (qt : QtText) : Type 0 where
  replies : Package → Work qt
  to_property : Effect qt → Work qt
  to_listeners : Listening → Work qt
  to_tree : ChildEffect → Work qt

module _ (qt : QtText) where
  -- Each handler's result as the result of the switch.
  abbrev pub with_reply : Option (NodeSync × Package) → Option (NodeSync × List (Work qt))
  with_reply none = none
  with_reply (some (s, resp)) = some (s, replies resp ∷ [])

  abbrev pub reply_only : NodeSync → Option Package → Option (NodeSync × List (Work qt))
  reply_only s none = none
  reply_only s (some resp) = some (s, replies resp ∷ [])

  abbrev pub property_only :
      NodeSync → Option (List (Effect qt)) → Option (NodeSync × List (Work qt))
  property_only s none = none
  property_only s (some es) = some (s, map to_property es)

  abbrev pub with_property :
      Option (NodeSync × List (Effect qt)) → Option (NodeSync × List (Work qt))
  with_property none = none
  with_property (some (s, es)) = some (s, map to_property es)

  abbrev pub listeners_only :
      NodeSync → Option (List Listening) → Option (NodeSync × List (Work qt))
  listeners_only s none = none
  listeners_only s (some ls) = some (s, map to_listeners ls)

  abbrev pub with_tree : Option (NodeSync × List ChildEffect) → Option (NodeSync × List (Work qt))
  with_tree none = none
  with_tree (some (s, es)) = some (s, map to_tree es)

  -- `CMD_AT_SUCCESS`: a plain client node is tracked under the id.
  abbrev pub at_success : NodeSync → ℕ → Package → Option (NodeSync × List (Work qt))
  at_success s address p = do
    nid ← get_nid p
    some (do_track_as s address nid, to_tree (makes address client_node nid) ∷ [])

  module _ (api : TreeApi qt) (m : Machine) (g : Generator) where
    open api use {Tree}

    -- The switch, on the command of the package `p`. A node that is made gets the address `address`;
    -- `rep` is for a client that has to ask for an id.
    abbrev pub handle :
        Tree → NodeSync → Package → ℕ → Package → ℕ → Option (NodeSync × List (Work qt))
    handle tree s rep address p cmd =
        if cmd == cmd_at_success
        then at_success s address p
        else if cmd == cmd_prop_value_updated
        then property_only s (process_prop_value qt api m tree s p)
        else if cmd == cmd_at
        then with_reply (cmd_at_handler qt api tree s rep p)
        else if cmd == cmd_ls
        then reply_only s (cmd_ls_handler qt api tree s p)
        else if cmd == cmd_prop_get_value
        then reply_only s (cmd_get_prop qt api m tree s p)
        else if cmd == cmd_subscribe
        then listeners_only s (cmd_subscribe_handler qt api tree s p false)
        else if cmd == cmd_unsubscribe
        then listeners_only s (cmd_subscribe_handler qt api tree s p true)
        else if cmd == cmd_prop_set_value
        then with_property (cmd_prop_value qt api m tree s p)
        else if cmd == cmd_node_attach
        then with_tree (cmd_attach g s address p)
        else if cmd == cmd_subscribe_add_remove
        then listeners_only s (cmd_subscribe_add_remove_handler s p false)
        else if cmd == cmd_child_added
        then with_tree (cmd_child_added_handler g s address p)
        else some (s, [])

    unfoldable pub process_package :
        Tree → NodeSync → Package → ℕ → Package → Option (NodeSync × List (Work qt))
    process_package tree s rep address p = do cmd ← get_cmd p; handle tree s rep address p cmd
