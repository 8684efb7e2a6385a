-- ===== src/NodeSync/Process/Typing.antt =====
-- The switch, on any package at all: no property comes to hold a value of another type.
use treeipc.Base.{
  ℕ, List, [], ◌∷◌, map, All, Bool, true, false, Option, none, some, ◌==◌, if◌then◌else◌, ◌>>=◌,
}
use treeipc.Types.{TypeNames, QtText}
use treeipc.Package.{Package, get_nid, get_cmd}
use treeipc.Package.Commands.{
  cmd_at, cmd_at_success, cmd_ls, cmd_prop_get_value, cmd_prop_value_updated, cmd_subscribe,
  cmd_unsubscribe, cmd_prop_set_value, cmd_node_attach, cmd_subscribe_add_remove, cmd_child_added,
}
use treeipc.Serializer.{Machine}
use treeipc.Generator.{Generator}
use treeipc.NodeSync.State.{NodeSync}
use treeipc.NodeSync.Tree.{TreeApi}
use treeipc.NodeSync.At.{cmd_at_handler}
use treeipc.NodeSync.Ls.{cmd_ls_handler}
use treeipc.NodeSync.Values.{Effect, process_prop_value, cmd_get_prop, cmd_prop_value}
use treeipc.NodeSync.Values.Typing.{
  HoldsValues, IsTyped, AllTyped, AllTypedIn, process_prop_value-AllTyped,
  cmd_prop_value-AllTypedIn,
}
use treeipc.NodeSync.Subscribe.{Listening, cmd_subscribe_handler, cmd_subscribe_add_remove_handler}
use treeipc.NodeSync.Children.{ChildEffect, cmd_child_added_handler}
use treeipc.NodeSync.Attach.{cmd_attach}
use treeipc.NodeSync.Process.{
  Work, replies, to_property, to_listeners, to_tree, with_reply, reply_only, property_only,
  with_property, listeners_only, with_tree, handle, process_package,
}

module _ (names : TypeNames) (qt : QtText) (api : TreeApi qt) (m : Machine)
    (tree : TreeApi.Tree api) where
  -- What a handler does to properties is typed.
  abbrev pub WorkIsTyped : Work qt → Type 0
  WorkIsTyped (replies p) = Unit
  WorkIsTyped (to_property e) = IsTyped names qt api m tree e
  WorkIsTyped (to_listeners l) = Unit
  WorkIsTyped (to_tree e) = Unit

  abbrev pub AllWorkTyped : Option (NodeSync × List (Work qt)) → Type 0
  AllWorkTyped none = Unit
  AllWorkTyped (some (s, ws)) = All WorkIsTyped ws

  if_typed :
      (b : Bool) (x y : Option (NodeSync × List (Work qt)))
      → AllWorkTyped x
      → AllWorkTyped y
      → AllWorkTyped (if b then x else y)
  if_typed true x y h k = h
  if_typed false x y h k = k

  >>=-typed :
      {A : Type 0} (o : Option A) (f : A → Option (NodeSync × List (Work qt)))
      → ((a : A) → AllWorkTyped (f a))
      → AllWorkTyped (o >>= f)
  >>=-typed none f h = tt
  >>=-typed (some a) f h = h a

  with_reply-typed : (o : Option (NodeSync × Package)) → AllWorkTyped (with_reply qt o)
  with_reply-typed none = tt
  with_reply-typed (some (s, resp)) = (tt, tt)

  reply_only-typed : (s : NodeSync) (o : Option Package) → AllWorkTyped (reply_only qt s o)
  reply_only-typed s none = tt
  reply_only-typed s (some resp) = (tt, tt)

  map-to_property :
      (es : List (Effect qt))
      → All (IsTyped names qt api m tree) es
      → All WorkIsTyped (map to_property es)
  map-to_property [] h = tt
  map-to_property (e ∷ es) h = (h.0, map-to_property es h.1)

  property_only-typed :
      (s : NodeSync) (o : Option (List (Effect qt)))
      → AllTyped names qt api m tree o
      → AllWorkTyped (property_only qt s o)
  property_only-typed s none h = tt
  property_only-typed s (some es) h = map-to_property es h

  with_property-typed :
      (o : Option (NodeSync × List (Effect qt)))
      → AllTypedIn names qt api m tree o
      → AllWorkTyped (with_property qt o)
  with_property-typed none h = tt
  with_property-typed (some (s, es)) h = map-to_property es h

  map-to_listeners : (ls : List Listening) → All WorkIsTyped (map to_listeners ls)
  map-to_listeners [] = tt
  map-to_listeners (l ∷ ls) = (tt, map-to_listeners ls)

  listeners_only-typed :
      (s : NodeSync) (o : Option (List Listening)) → AllWorkTyped (listeners_only qt s o)
  listeners_only-typed s none = tt
  listeners_only-typed s (some ls) = map-to_listeners ls

  map-to_tree : (es : List ChildEffect) → All WorkIsTyped (map to_tree es)
  map-to_tree [] = tt
  map-to_tree (e ∷ es) = (tt, map-to_tree es)

  with_tree-typed : (o : Option (NodeSync × List ChildEffect)) → AllWorkTyped (with_tree qt o)
  with_tree-typed none = tt
  with_tree-typed (some (s, es)) = map-to_tree es

  module _ (holds : HoldsValues names qt api m tree) (g : Generator) (rep : Package)
      (address : ℕ) where
    handle-typed :
        (s : NodeSync) (p : Package) (cmd : ℕ)
        → AllWorkTyped (handle qt api m g tree s rep address p cmd)
    handle-typed s p cmd =
        if_typed (cmd == cmd_at_success) _ _ (>>=-typed (get_nid p) _ (λ nid. (tt, tt))) (
          if_typed (cmd == cmd_prop_value_updated) _ _
            (property_only-typed s (process_prop_value qt api m tree s p)
              (process_prop_value-AllTyped names qt api m tree holds p s))
            (if_typed (cmd == cmd_at) _ _ (with_reply-typed (cmd_at_handler qt api tree s rep p)) (
              if_typed (cmd == cmd_ls) _ _ (reply_only-typed s (cmd_ls_handler qt api tree s p)) (
                if_typed (cmd == cmd_prop_get_value) _ _
                  (reply_only-typed s (cmd_get_prop qt api m tree s p))
                  (if_typed (cmd == cmd_subscribe) _ _
                    (listeners_only-typed s (cmd_subscribe_handler qt api tree s p false))
                    (if_typed (cmd == cmd_unsubscribe) _ _
                      (listeners_only-typed s (cmd_subscribe_handler qt api tree s p true))
                      (if_typed (cmd == cmd_prop_set_value) _ _
                        (with_property-typed (cmd_prop_value qt api m tree s p)
                          (cmd_prop_value-AllTypedIn names qt api m tree holds p s))
                        (if_typed (cmd == cmd_node_attach) _ _
                          (with_tree-typed (cmd_attach g s address p))
                          (if_typed (cmd == cmd_subscribe_add_remove) _ _
                            (listeners_only-typed s (cmd_subscribe_add_remove_handler s p false))
                            (if_typed (cmd == cmd_child_added) _ _
                              (with_tree-typed (cmd_child_added_handler g s address p)) tt))))))))))

    -- Whatever package arrives, and whatever serializers the machine has: where every property of the tree
    -- holds a value, all that the switch stores goes to properties of the tree, as values of the types that
    -- they have.
    pub process_package-typed :
        (s : NodeSync) (p : Package)
        → AllWorkTyped (process_package qt api m g tree s rep address p)
    unfolding process_package
    process_package-typed s p =
        >>=-typed (get_cmd p) (handle qt api m g tree s rep address p) (handle-typed s p)
