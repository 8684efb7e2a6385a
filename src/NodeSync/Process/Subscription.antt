-- ===== src/NodeSync/Process/Subscription.antt =====
-- The three notices of subscription, through the switch of the other side.
use treeipc.Base.{ℕ, ◌<◌, ◌^◌, ◌≡◌, refl, ◌∙◌, [], ◌∷◌, some, arith, List}
use treeipc.Types.{QtText}
use treeipc.Package.{Package}
use treeipc.Package.Commands.{cmd_subscribe, cmd_unsubscribe, cmd_subscribe_add_remove}
use treeipc.Package.Layout.{build, get_nid-build, get_cmd-build}
use treeipc.Serializer.{Machine}
use treeipc.Generator.{Generator}
use treeipc.NodeSync.State.{NodeSync, find, get_node}
use treeipc.NodeSync.Tree.{TreeApi, PropertyNode}
use treeipc.NodeSync.Subscribe.{
  subscribe, unsubscribe, subscribe_add_remove, notice-build, listens, leaves, listens_node,
  cmd_subscribe_handler, cmd_subscribe_add_remove_handler,
}
use treeipc.NodeSync.Process.{to_listeners, process_package, handle}

module _ (qt : QtText) (api : TreeApi qt) (m : Machine) (g : Generator) where
  open api use {Tree}

  -- What the switch makes of a package, by its command.
  pub process_package-build :
      (tree : Tree) (s : NodeSync) (rep : Package) (address cmd nid : ℕ) (d : List ℕ)
      → cmd < 256
      → process_package qt api m g tree s rep address (build cmd nid d)
        ≡ handle qt api m g tree s rep address (build cmd nid d) cmd
  unfolding process_package
  process_package-build tree s rep address cmd nid d h = rw (get_cmd-build cmd nid d h) refl

  -- Where the other side has a property under the id, `subscribe` and `unsubscribe` make it a listener
  -- of that property and no listener any more, and `subscribe_add_remove` a listener of the node; the
  -- ids that it tracks stay.
  pub process_package-subscribe :
      (tree : Tree) (s : NodeSync) (rep : Package) (address nid n : ℕ) (p : PropertyNode qt)
      → nid < 2 ^ 64
      → find nid s.tracked ≡ some (some n)
      → api.property tree n ≡ some p
      → (process_package qt api m g tree s rep address (subscribe nid)
          ≡ some (s, to_listeners (listens n) ∷ []))
        × (process_package qt api m g tree s rep address (unsubscribe nid)
            ≡ some (s, to_listeners (leaves n) ∷ []))
        × (process_package qt api m g tree s rep address (subscribe_add_remove nid)
            ≡ some (s, to_listeners (listens_node n) ∷ []))
  unfolding subscribe unsubscribe subscribe_add_remove cmd_subscribe_handler
      cmd_subscribe_add_remove_handler get_node
  process_package-subscribe tree s rep address nid n p h e ep = (
    rw (notice-build cmd_subscribe nid) (
        process_package-build tree s rep address cmd_subscribe nid [] (omega arith)
        ∙ rw (get_nid-build cmd_subscribe nid [] h) (rw e (rw ep refl))),
    rw (notice-build cmd_unsubscribe nid) (
        process_package-build tree s rep address cmd_unsubscribe nid [] (omega arith)
        ∙ rw (get_nid-build cmd_unsubscribe nid [] h) (rw e (rw ep refl))),
    rw (notice-build cmd_subscribe_add_remove nid) (
        process_package-build tree s rep address cmd_subscribe_add_remove nid [] (omega arith)
        ∙ rw (get_nid-build cmd_subscribe_add_remove nid [] h) (rw e refl)),
  )
