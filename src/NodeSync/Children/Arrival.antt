-- ===== src/NodeSync/Children/Arrival.antt =====
-- A child that appears on one side appears on the other.
use treeipc.Base.{
  ℕ, ◌+◌, ◌<◌, ◌^◌, ◌≡◌, refl, sym, ap, ◌∙◌, List, [], ◌∷◌, ◌++◌, length, Bool, true, false, none,
  some, ◌==◌, not, arith, le_bytes, append_assoc, append-nil, length-append, length-le_bytes,
}
use treeipc.Package.{Package, append, append_word, read_word}
use treeipc.Package.Commands.{cmd_child_added}
use treeipc.Package.Layout.{build, append-build, get_nid-build}
use treeipc.Package.Read.{read_word-at}
use treeipc.Package.Text.{
  size_of_int, append_string, read_string, append_string-build, read_string-at, encode_string,
  length-encode_string,
}
use treeipc.Generator.{Generator, Generated, generate}
use treeipc.NodeSync.State.{NodeSync, get_node, get_node_nid, do_track_as}
use treeipc.NodeSync.Wire.{header_lem}
use treeipc.NodeSync.Children.{
  Child, bool_word, child_package, child_added, makes, subscribes, attach_child, place_child,
  cmd_child_added_handler,
}

module _ (c : Child) where
  abbrev encode_child : ℕ → List ℕ
  encode_child nid =
      le_bytes 8 nid
      ++ (encode_string c.child_name
          ++ (encode_string c.child_type ++ (le_bytes 1 (bool_word c.is_owned) ++ [])))

  child_package_lem :
      (pn nid : ℕ) → child_package pn nid c ≡ build cmd_child_added pn (encode_child nid)
  unfolding child_package append_word
  child_package_lem pn nid =
      ap (λ p. put_all (append p (le_bytes 8 nid))) (header_lem cmd_child_added pn)
      ∙ ap put_all (append-build cmd_child_added pn [] (le_bytes 8 nid))
      ∙ ap (λ p. put_flag (append_string p c.child_type))
          (append_string-build cmd_child_added pn (le_bytes 8 nid) c.child_name)
      ∙ ap put_flag (
          append_string-build cmd_child_added pn (le_bytes 8 nid ++ encode_string c.child_name)
            c.child_type)
      ∙ append-build cmd_child_added pn
          ((le_bytes 8 nid ++ encode_string c.child_name) ++ encode_string c.child_type) flag
      ∙ ap (build cmd_child_added pn) regroup
    where
      flag : List ℕ
      flag = le_bytes 1 (bool_word c.is_owned)

      put_flag : Package → Package
      put_flag p = append p flag

      put_all : Package → Package
      put_all p = put_flag (append_string (append_string p c.child_name) c.child_type)

      regroup :
          ((le_bytes 8 nid ++ encode_string c.child_name) ++ encode_string c.child_type) ++ flag
          ≡ encode_child nid
      regroup =
          append_assoc (le_bytes 8 nid ++ encode_string c.child_name) (encode_string c.child_type)
            flag
          ∙ append_assoc (le_bytes 8 nid) (encode_string c.child_name)
              (encode_string c.child_type ++ flag)
          ∙ ap
              (λ l.
                le_bytes 8 nid ++ (encode_string c.child_name ++ (encode_string c.child_type ++ l)))
              (sym (append-nil flag))

  module _ (pn nid : ℕ) (ln : length c.child_name < 2 ^ 29)
      (lt : length c.child_type < 2 ^ 29) where
    abbrev name_part : List ℕ
    name_part = le_bytes 8 nid ++ encode_string c.child_name

    abbrev type_part : List ℕ
    type_part = name_part ++ encode_string c.child_type

    name_end : length name_part ≡ 12 + length c.child_name
    name_end = omega (
      arith,
      length-append (le_bytes 8 nid) (encode_string c.child_name),
      length-encode_string c.child_name,
      length-le_bytes 8 nid,
    )

    type_end : length type_part ≡ 16 + length c.child_name + length c.child_type
    type_end = omega (
      arith,
      length-append name_part (encode_string c.child_type),
      length-encode_string c.child_type,
      name_end,
    )

    abbrev flag_part : List ℕ
    flag_part = le_bytes 1 (bool_word c.is_owned) ++ []

    read_type :
        (pos : ℕ)
        → pos ≡ 12 + length c.child_name
        → read_string (build cmd_child_added pn (encode_child nid)) [] pos
          ≡ some (c.child_type, pos + 4 + length c.child_type)
    read_type pos e =
        ap (λ d. read_string (build cmd_child_added pn d) [] pos)
          (sym (
            append_assoc (le_bytes 8 nid) (encode_string c.child_name)
              (encode_string c.child_type ++ flag_part)))
        ∙ read_string-at cmd_child_added pn name_part c.child_type flag_part [] pos
            (omega (arith, name_end, e)) (omega (arith, name_end))

    read_flag :
        (pos : ℕ)
        → pos ≡ 16 + length c.child_name + length c.child_type
        → read_word 1 (build cmd_child_added pn (encode_child nid)) (size_of_int pos)
          ≡ some (bool_word c.is_owned)
    read_flag pos e =
        ap (λ d. read_word 1 (build cmd_child_added pn d) (size_of_int pos))
          (sym (
              append_assoc (le_bytes 8 nid) (encode_string c.child_name)
                (encode_string c.child_type ++ flag_part))
            ∙ sym (append_assoc name_part (encode_string c.child_type) flag_part))
        ∙ read_word-at 1 cmd_child_added pn type_part [] (size_of_int pos) (bool_word c.is_owned)
            (ground (arith, type_end)) (one_byte c.is_owned) (omega (arith, type_end))
      where
        one_byte : (b : Bool) → bool_word b < 256 ^ 1
        one_byte true = omega arith
        one_byte false = omega arith

    flag_back : not (bool_word c.is_owned == 0) ≡ c.is_owned
    flag_back = back c.is_owned
      where
        back : (b : Bool) → not (bool_word b == 0) ≡ b
        back true = refl
        back false = refl

  -- What the handler makes of the package, whatever stands under the two ids.
  cmd_child_added-package :
      (g : Generator) (s : NodeSync) (address pn nid parent : ℕ)
      → pn < 2 ^ 64
      → nid < 2 ^ 64
      → length c.child_name < 2 ^ 29
      → length c.child_type < 2 ^ 29
      → get_node s pn ≡ some parent
      → cmd_child_added_handler g s address (child_package pn nid c)
        ≡ some (
            place_child s address parent nid c.child_name c.is_owned
              (generate g c.child_type)
              (get_node s nid))
  unfolding cmd_child_added_handler
  cmd_child_added-package g s address pn nid parent hp hn ln lt ep =
      rw (child_package_lem pn nid, get_nid-build cmd_child_added pn (encode_child nid) hp)
        (rw ep (
          rw (read_word-at 8 cmd_child_added pn [] after_nid 0 nid refl (omega arith) (omega arith))
            (rw
              (read_string-at cmd_child_added pn (le_bytes 8 nid) c.child_name after_name [] 8
                at_name (omega (arith, at_name)))
              (rw (read_type pn nid ln lt (8 + 4 + length c.child_name) (omega arith)) (
                rw
                  (read_flag pn nid ln lt (8 + 4 + length c.child_name + 4 + length c.child_type)
                    (omega arith))
                  (rw (flag_back pn nid ln lt) refl))))))
    where
      after_name : List ℕ
      after_name = encode_string c.child_type ++ (le_bytes 1 (bool_word c.is_owned) ++ [])

      after_nid : List ℕ
      after_nid = encode_string c.child_name ++ after_name

      at_name : 8 ≡ length (le_bytes 8 nid)
      at_name = sym (length-le_bytes 8 nid)

  -- A child that appears below a parent on one side, and is no client node of that side: the package that
  -- `child_added` writes makes the other side, which tracks its own parent under the parent's id and
  -- nothing under the child's, make a client node of the child's type, track it under the child's id,
  -- subscribe to it, and attach it under its name, with the parent as owner as on the first side.
  pub cmd_child_added-child_added :
      (s s' s'' other : NodeSync) (rep rep' : Package) (g : Generator)
      → (p pn nid parent address : ℕ) (kind : Generated) → c.is_own ≡ false
      → get_node_nid s rep p true ≡ some (s', some pn)
      → get_node_nid s' rep' c.node true ≡ some (s'', some nid)
      → pn < 2 ^ 64
      → nid < 2 ^ 64
      → length c.child_name < 2 ^ 29
      → length c.child_type < 2 ^ 29
      → get_node other pn ≡ some parent
      → get_node other nid ≡ none
      → generate g c.child_type ≡ some kind
      → (pack : Package) × (child_added s rep rep' p c ≡ some (s'', some pack))
        × (cmd_child_added_handler g other address pack
            ≡ some (
              do_track_as other address nid,
              makes address kind nid
                  ∷ subscribes nid
                  ∷ attach_child parent c.child_name address c.is_owned,
            ))
  unfolding child_added
  cmd_child_added-child_added s s' s'' other rep rep' g p pn nid parent address kind foreign ep en
        hp hn ln lt there new eg =
      (
        child_package pn nid c,
        rw (ep, foreign, en) refl,
        cmd_child_added-package g other address pn nid parent hp hn ln lt there
            ∙ ap some (rw (eg, new) refl),
      )
