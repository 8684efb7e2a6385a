-- ===== src/NodeSync/Tree.antt =====
-- What `node_sync` asks of the tree, which is another repository (the submodule `tree`): the nodes are
-- numbers, as pointers are, and these are the calls that only read.
use treeipc.Base.{ℕ, List, [], Option, none, some, Bool}
use treeipc.Types.{QtText}
use treeipc.Serializer.{Property}

module _ (qt : QtText) where
  -- A node that is a property, and for a `property_fake` whether a deserialization is in process.
  pub record PropertyNode : Type 0 where
    pub property : Property qt
    pub fake : Option Bool

  pub record TreeApi : Type 1 where
    pub Tree : Type 0
    pub ls : Tree → ℕ → List (List ℕ)
    pub at : Tree → ℕ → List ℕ → Option ℕ
    pub property : Tree → ℕ → Option PropertyNode

  -- `prop->get_type()`, or the empty name where the node is no property.
  abbrev pub type_name : Option PropertyNode → List ℕ
  type_name none = []
  type_name (some p) = p.property.type
