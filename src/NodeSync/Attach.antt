-- ===== src/NodeSync/Attach.antt =====
-- `attach`, and `cmd_attach` on the other side: a node of this side that is put below a client node.
use treeipc.Base.{
  ℕ, ◌+◌, ◌<◌, ◌^◌, ◌≡◌, refl, sym, ap, ◌∙◌, List, [], ◌∷◌, ◌++◌, length, true, Option, none, some,
  ◌>>=◌, arith, le_bytes, append_assoc, append-nil, length-append,
}
use treeipc.Package.{Package, get_nid, append, read_word}
use treeipc.Package.Commands.{cmd_node_attach}
use treeipc.Package.Layout.{build, append-build, get_nid-build}
use treeipc.Package.Read.{read_word-at}
use treeipc.Package.Text.{
  size_of_int, append_string, read_string, append_string-build, read_string-at, encode_string,
  length-encode_string,
}
use treeipc.Generator.{Generator, Generated, generate}
use treeipc.NodeSync.State.{NodeSync, find, get_node_nid, do_track_as}
use treeipc.NodeSync.Wire.{header, header-append_string, read_string-first}
use treeipc.NodeSync.Children.{ChildEffect, makes, subscribes, attaches}

unfoldable pub attach_package : ℕ → List ℕ → List ℕ → ℕ → Package
attach_package nid type name child_nid =
    append (append_string (append_string (header cmd_node_attach nid) type) name)
      (le_bytes 8 child_nid)

abbrev pub attach_under :
    ℕ → List ℕ → List ℕ → Option (NodeSync × Option ℕ) → Option (NodeSync × Package)
attach_under nid type name none = none
attach_under nid type name (some (s, none)) = some (s, attach_package nid type name 0)
attach_under nid type name (some (s, some child_nid)) =
    some (s, attach_package nid type name child_nid)

-- `attach(nid, name, child)`: the package that it writes. `type` is the child's property type, or the
-- empty name, and `name` its own name: the argument of that name is not used. It always returns true.
-- `rep` is for a client that has to ask for the child's id.
unfoldable pub attach : NodeSync → Package → ℕ → ℕ → List ℕ → List ℕ → Option (NodeSync × Package)
attach s rep nid child type name = attach_under nid type name (get_node_nid s rep child true)

-- `parent->attach` where a node was generated; a null pointer in the map is called through.
abbrev pub attach_generated :
    NodeSync → ℕ → ℕ → List ℕ → Option ℕ → Option Generated → Option (NodeSync × List ChildEffect)
attach_generated s address nid name parent none = some (s, [])
attach_generated s address nid name none (some kind) = none
attach_generated s address nid name (some parent) (some kind) = some (
  do_track_as s address nid,
  makes address kind nid ∷ attaches parent name address ∷ subscribes nid ∷ [],
)

abbrev pub attach_below :
    Generator → NodeSync → ℕ → Package → Option (Option ℕ) → Option (NodeSync × List ChildEffect)
attach_below g s address p none = some (s, [])
attach_below g s address p (some parent) = do
  (type, pos) ← read_string p [] 0
  (name, pos) ← read_string p [] pos
  nid ← read_word 8 p (size_of_int pos)
  attach_generated s address nid name parent (generate g type)

-- `cmd_attach`. A node that is generated gets the address `address`. No reply is sent.
unfoldable pub cmd_attach :
    Generator → NodeSync → ℕ → Package → Option (NodeSync × List ChildEffect)
cmd_attach g s address p = do nid ← get_nid p; attach_below g s address p (find nid s.tracked)

module _ (nid child_nid : ℕ) (type name : List ℕ) where
  abbrev encode_attached : List ℕ
  encode_attached = encode_string type ++ (encode_string name ++ (le_bytes 8 child_nid ++ []))

  attach_package_lem :
      attach_package nid type name child_nid ≡ build cmd_node_attach nid encode_attached
  unfolding attach_package
  attach_package_lem =
      ap (λ p. append (append_string p name) (le_bytes 8 child_nid))
        (header-append_string cmd_node_attach nid type)
      ∙ ap (λ p. append p (le_bytes 8 child_nid))
          (append_string-build cmd_node_attach nid (encode_string type) name)
      ∙ append-build cmd_node_attach nid (encode_string type ++ encode_string name)
          (le_bytes 8 child_nid)
      ∙ ap (build cmd_node_attach nid) (
          append_assoc (encode_string type) (encode_string name) (le_bytes 8 child_nid)
          ∙ ap (λ l. encode_string type ++ (encode_string name ++ l))
              (sym (append-nil (le_bytes 8 child_nid))))

  module _ (ht : length type < 2 ^ 29) (hn : length name < 2 ^ 29) (hc : child_nid < 2 ^ 64) where
    read_name :
        read_string (build cmd_node_attach nid encode_attached) [] (4 + length type)
        ≡ some (name, 8 + length type + length name)
    read_name =
        read_string-at cmd_node_attach nid (encode_string type) name (le_bytes 8 child_nid ++ []) []
          (4 + length type) (omega (arith, length-encode_string type))
          (omega (arith, length-encode_string type))
        ∙ ap (λ k. some (name, k)) (omega arith)

    read_child_nid :
        read_word 8
          (build cmd_node_attach nid encode_attached)
          (size_of_int (8 + length type + length name))
        ≡ some child_nid
    read_child_nid =
        ap
          (λ d.
            read_word 8 (build cmd_node_attach nid d) (size_of_int (8 + length type + length name)))
          (sym
            (append_assoc (encode_string type) (encode_string name) (le_bytes 8 child_nid ++ [])))
        ∙ read_word-at 8 cmd_node_attach nid (encode_string type ++ encode_string name) []
            (size_of_int (8 + length type + length name)) child_nid (ground (arith, end))
            (omega arith) (omega (arith, end))
      where
        end : length (encode_string type ++ encode_string name) ≡ 8 + length type + length name
        end = omega (
          arith,
          length-append (encode_string type) (encode_string name),
          length-encode_string type,
          length-encode_string name,
        )

    -- What the handler makes of the package, whatever stands under the parent's id.
    cmd_attach-package :
        (g : Generator) (s : NodeSync) (address parent : ℕ)
        → nid < 2 ^ 64
        → find nid s.tracked ≡ some (some parent)
        → cmd_attach g s address (attach_package nid type name child_nid)
          ≡ attach_generated s address child_nid name (some parent) (generate g type)
    unfolding cmd_attach
    cmd_attach-package g s address parent hp ep =
        rw (attach_package_lem, get_nid-build cmd_node_attach nid encode_attached hp)
          (rw ep (
            rw
              (read_string-first cmd_node_attach nid type
                (encode_string name ++ (le_bytes 8 child_nid ++ [])) (omega arith))
              (rw read_name (rw read_child_nid refl))))

-- A node put below a client node: where the other side tracks the parent under the id given and the
-- generator knows the type, the package that `attach` writes makes it generate a client node of the
-- child's type, track it under the id that the child has on this side, attach it below the parent
-- under the child's own name, and subscribe to it.
pub cmd_attach-attach :
    (s s' other : NodeSync) (rep : Package) (g : Generator)
    → (nid child child_nid parent address : ℕ) (type name : List ℕ) (kind : Generated)
    → get_node_nid s rep child true ≡ some (s', some child_nid)
    → nid < 2 ^ 64
    → child_nid < 2 ^ 64
    → length type < 2 ^ 29
    → length name < 2 ^ 29
    → find nid other.tracked ≡ some (some parent)
    → generate g type ≡ some kind
    → (p : Package) × (attach s rep nid child type name ≡ some (s', p))
      × (cmd_attach g other address p
          ≡ some (
            do_track_as other address child_nid,
            makes address kind child_nid ∷ attaches parent name address ∷ subscribes child_nid ∷ [],
          ))
unfolding attach
cmd_attach-attach s s' other rep g nid child child_nid parent address type name kind ec hp hc ht hn
      ep eg =
    (
      attach_package nid type name child_nid,
      rw ec refl,
      cmd_attach-package nid child_nid type name ht hn hc g other address parent hp ep ∙ rw eg refl,
    )

-- A node of a type that the other side's generator does not know: `attach` still tracks the node under
-- an id of its own and writes the package, and the other side does nothing.
pub cmd_attach_unknown_type :
    (s s' other : NodeSync) (rep : Package) (g : Generator)
    → (nid child child_nid parent address : ℕ) (type name : List ℕ)
    → get_node_nid s rep child true ≡ some (s', some child_nid)
    → nid < 2 ^ 64
    → child_nid < 2 ^ 64
    → length type < 2 ^ 29
    → length name < 2 ^ 29
    → find nid other.tracked ≡ some (some parent)
    → generate g type ≡ none
    → (p : Package) × (attach s rep nid child type name ≡ some (s', p))
      × (cmd_attach g other address p ≡ some (other, []))
unfolding attach
cmd_attach_unknown_type s s' other rep g nid child child_nid parent address type name ec hp hc ht hn
      ep eg =
    (
      attach_package nid type name child_nid,
      rw ec refl,
      cmd_attach-package nid child_nid type name ht hn hc g other address parent hp ep ∙ rw eg refl,
    )
