-- ===== src/NodeSync/Values/Typing.antt =====
-- What packages that arrive can make a property hold: values of its own type only.
use treeipc.Base.{
  ℕ, ◌≡◌, refl, List, [], ◌∷◌, ◌++◌, All, All-append, Bool, true, false, Option, none, some,
  if◌then◌else◌, ◌>>=◌, resize,
}
use treeipc.Types.{TypeNames, QtText}
use treeipc.Package.{Package, get_nid, read, data_size}
use treeipc.Package.Text.{filled}
use treeipc.Serializer.{Machine, Store, deserialize}
use treeipc.Serializer.RoundTrip.{IsValue}
use treeipc.Serializer.Typing.{Fits, FitsIfAny, deserialize-Fits}
use treeipc.NodeSync.State.{NodeSync, get_node, touch}
use treeipc.NodeSync.Tree.{TreeApi, PropertyNode}
use treeipc.NodeSync.Values.{
  Effect, stores, notify_change, read_value, store_at, is_ready, take_property, take_at,
  process_prop_value, update_response, set_property, set_at, cmd_prop_value,
}

module _ (names : TypeNames) (qt : QtText) (api : TreeApi qt) (m : Machine)
    (tree : TreeApi.Tree api) where
  -- Every property of the tree holds a value as it can lie in memory.
  abbrev pub HoldsValues : Type 0
  HoldsValues =
      (n : ℕ) (p : PropertyNode qt)
      → api.property tree n ≡ some p
      → IsValue names qt p.property.value

  -- A store goes to a property, and fits it.
  pub record FitsAt (n : ℕ) (s : Store qt) : Type 0 where
    pub node : PropertyNode qt
    pub is_there : api.property tree n ≡ some node
    pub fits : Fits names qt node.property.value s

  abbrev pub IsTyped : Effect qt → Type 0
  IsTyped (stores n s) = FitsAt n s
  IsTyped (notify_change n) = Unit

  abbrev pub AllTyped : Option (List (Effect qt)) → Type 0
  AllTyped none = Unit
  AllTyped (some es) = All IsTyped es

  AllTyped-if :
      (b : Bool) (x y : Option (List (Effect qt)))
      → AllTyped x
      → AllTyped y
      → AllTyped (if b then x else y)
  AllTyped-if true x y h k = h
  AllTyped-if false x y h k = k

  AllTyped->>= :
      {A : Type 0} (o : Option A) (f : A → Option (List (Effect qt)))
      → ((a : A) → AllTyped (f a))
      → AllTyped (o >>= f)
  AllTyped->>= none f h = tt
  AllTyped->>= (some a) f h = h a

  -- The same for a handler that returns the state too.
  abbrev pub AllTypedIn : Option (NodeSync × List (Effect qt)) → Type 0
  AllTypedIn none = Unit
  AllTypedIn (some (s, es)) = All IsTyped es

  AllTypedIn->>= :
      {A : Type 0} (o : Option A) (f : A → Option (NodeSync × List (Effect qt)))
      → ((a : A) → AllTypedIn (f a))
      → AllTypedIn (o >>= f)
  AllTypedIn->>= none f h = tt
  AllTypedIn->>= (some a) f h = h a

  module _ (holds : HoldsValues) (n : ℕ) (node : PropertyNode qt)
      (e : api.property tree n ≡ some node) where
    store_at-IsTyped :
        (o : Option (Store qt))
        → FitsIfAny names qt node.property.value o
        → All IsTyped (store_at qt api m n o)
    store_at-IsTyped none f = tt
    store_at-IsTyped (some s) f = (record { node = node; is_there = e; fits = f }, tt)

    deserialized-IsTyped :
        (buf : List ℕ) (after : List (Effect qt))
        → All IsTyped after
        → All IsTyped (store_at qt api m n (deserialize qt m buf node.property) ++ after)
    deserialized-IsTyped buf after h =
        let o = deserialize qt m buf node.property in
        All-append IsTyped (store_at qt api m n o) after
          (store_at-IsTyped o (deserialize-Fits names qt m buf node.property (holds n node e))) h

  module _ (holds : HoldsValues) (p : Package) where
    take_property-AllTyped :
        (n : ℕ) (after : List (Effect qt)) (o : Option (PropertyNode qt))
        → api.property tree n ≡ o
        → All IsTyped after
        → AllTyped (take_property qt api m p n after o)
    take_property-AllTyped n after none e h = tt
    take_property-AllTyped n after (some node) e h =
        AllTyped-if (is_ready qt api m node.fake) _ _
          (AllTyped->>= (read_value p)
            (λ buf. some (store_at qt api m n (deserialize qt m buf node.property) ++ after))
            (λ buf. deserialized-IsTyped holds n node e buf after h))
          tt

    take_at-AllTyped :
        (after : ℕ → List (Effect qt)) (o : Option ℕ)
        → ((n : ℕ) → All IsTyped (after n))
        → AllTyped (take_at qt api m tree p after o)
    take_at-AllTyped after none h = tt
    take_at-AllTyped after (some n) h =
        take_property-AllTyped n (after n) (api.property tree n) refl (h n)

    pub process_prop_value-AllTyped :
        (s : NodeSync) → AllTyped (process_prop_value qt api m tree s p)
    unfolding process_prop_value
    process_prop_value-AllTyped s =
        AllTyped->>= (get_nid p)
          (λ nid. take_at qt api m tree p (λ n. notify_change n ∷ []) (get_node s nid))
          (λ nid. take_at-AllTyped (λ n. notify_change n ∷ []) (get_node s nid) (λ n. (tt, tt)))

    -- What `update_prop` stores, whatever the response is, is a value of the property's type.
    pub update_response-AllTyped :
        (n : ℕ) (node : PropertyNode qt)
        → api.property tree n ≡ some node
        → AllTyped (update_response qt api m n node p)
    unfolding update_response
    update_response-AllTyped n node e =
        AllTyped->>= (read_value p)
          (λ buf. some (store_at qt api m n (deserialize qt m buf node.property)))
          (λ buf.
            store_at-IsTyped holds n node e (deserialize qt m buf node.property)
              (deserialize-Fits names qt m buf node.property (holds n node e)))

    set_property-AllTypedIn :
        (s : NodeSync) (n : ℕ) (o : Option (PropertyNode qt))
        → api.property tree n ≡ o
        → AllTypedIn (set_property qt api m s p n o)
    set_property-AllTypedIn s n none e = tt
    set_property-AllTypedIn s n (some node) e =
        AllTypedIn->>= (filled (resize (data_size p) 0 []) (read p 0 (data_size p)))
          (λ buf.
            some (
              s,
              store_at qt api m n (deserialize qt m buf node.property) ++ (notify_change n ∷ []),
            ))
          (λ buf. deserialized-IsTyped holds n node e buf (notify_change n ∷ []) (tt, tt))

    set_at-AllTypedIn : (s : NodeSync) (o : Option ℕ) → AllTypedIn (set_at qt api m tree s p o)
    set_at-AllTypedIn s none = tt
    set_at-AllTypedIn s (some n) = set_property-AllTypedIn s n (api.property tree n) refl

    pub cmd_prop_value-AllTypedIn : (s : NodeSync) → AllTypedIn (cmd_prop_value qt api m tree s p)
    unfolding cmd_prop_value
    cmd_prop_value-AllTypedIn s =
        AllTypedIn->>= (get_nid p)
          (λ nid.
            let t = record s { tracked = touch nid s.tracked } in
            set_at qt api m tree t p (get_node t nid))
          (λ nid.
            let t = record s { tracked = touch nid s.tracked } in
            set_at-AllTypedIn t (get_node t nid))
