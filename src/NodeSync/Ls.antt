-- ===== src/NodeSync/Ls.antt =====
-- `cmd_ls`, and `ls` on the other side.
use treeipc.Base.{
  ℕ, zero, suc, ◌+◌, ◌<◌, ◌^◌, ◌≡◌, refl, sym, ap, ◌∙◌, List, [], ◌∷◌, ◌++◌, length, replicate,
  Option, none, some, ◌==◌, if◌then◌else◌, not, ◌>>=◌, arith, le_bytes, append_assoc, append-nil,
  length-append, length-le_bytes,
}
use treeipc.Types.{QtText}
use treeipc.Package.{Package, get_nid, get_cmd, append, append_word, read_word}
use treeipc.Package.Commands.{cmd_ls, cmd_ls_success, cmd_ls_error}
use treeipc.Package.Layout.{build, append-build, get_nid-build, get_cmd-build}
use treeipc.Package.Read.{read_word-at}
use treeipc.Package.Text.{
  append_string, read_string, append_string-build, read_string-at, encode_string,
  length-encode_string,
}
use treeipc.NodeSync.State.{NodeSync, get_node}
use treeipc.NodeSync.Wire.{header, header_lem, build-zeros}
use treeipc.NodeSync.Tree.{TreeApi}

-- The loop that appends the names.
unfoldable pub append_names : Package → List (List ℕ) → Package
append_names p [] = p
append_names p (name ∷ names) = append_names (append_string p name) names

abbrev pub names_package : ℕ → List (List ℕ) → Package
names_package nid names =
    append_names (append_word 4 (header cmd_ls_success nid) (length names)) names

module _ (qt : QtText) (api : TreeApi qt) where
  open api use {Tree}

  abbrev answer_ls : Tree → ℕ → Option ℕ → Package
  answer_ls tree nid none = header cmd_ls_error nid
  answer_ls tree nid (some t) = names_package nid (api.ls tree t)

  -- `cmd_ls`: the reply to the request `p`.
  unfoldable pub cmd_ls_handler : Tree → NodeSync → Package → Option Package
  cmd_ls_handler tree s p = do nid ← get_nid p; some (answer_ls tree nid (get_node s nid))

-- `ls`, the request, and the loop over the names in the response.
unfoldable pub ls_request : ℕ → Package
ls_request nid = header cmd_ls nid

unfoldable pub read_names : ℕ → Package → ℕ → Option (List (List ℕ))
read_names zero rep pos = some []
read_names (suc count) rep pos = do
  (name, pos) ← read_string rep [] pos
  names ← read_names count rep pos
  some (name ∷ names)

unfoldable pub ls_response : Package → Option (List (List ℕ))
ls_response rep = do
  cmd ← get_cmd rep
  if not (cmd == cmd_ls_success)
      then some []
      else (do count ← read_word 4 rep 0; read_names count rep 4)

abbrev pub encode_names : List (List ℕ) → List ℕ
encode_names [] = []
encode_names (name ∷ names) = encode_string name ++ encode_names names

append_names-build :
    (c n : ℕ) (d : List ℕ) (names : List (List ℕ))
    → append_names (build c n d) names ≡ build c n (d ++ encode_names names)
unfolding append_names
append_names-build c n d [] = ap (build c n) (sym (append-nil d))
append_names-build c n d (name ∷ names) =
    ap (λ p. append_names p names) (append_string-build c n d name)
    ∙ append_names-build c n (d ++ encode_string name) names
    ∙ ap (build c n) (append_assoc d (encode_string name) (encode_names names))

read_names-build :
    (c n : ℕ) (pre post : List ℕ) (names : List (List ℕ)) (pos : ℕ)
    → pos ≡ length pre
    → length pre + length (encode_names names) < 2 ^ 31
    → read_names (length names) (build c n (pre ++ (encode_names names ++ post))) pos ≡ some names
unfolding read_names
read_names-build c n pre post [] pos e h = refl
read_names-build c n pre post (name ∷ names) pos e h =
    rw (append_assoc (encode_string name) (encode_names names) post) (
      rw (read_string-at c n pre name (encode_names names ++ post) [] pos e (omega (arith, sizes)))
        (rw (← append_assoc pre (encode_string name) (encode_names names ++ post)) (
          rw
            (read_names-build c n (pre ++ encode_string name) post names (pos + 4 + length name)
              (omega (arith, length-append pre (encode_string name), length-encode_string name))
              (omega
                (arith, sizes, length-append pre (encode_string name), length-encode_string name)))
            refl)))
  where
    sizes : length (encode_names (name ∷ names)) ≡ 4 + length name + length (encode_names names)
    sizes =
        omega (
          arith,
          length-append (encode_string name) (encode_names names),
          length-encode_string name,
        )

names_package_lem :
    (nid : ℕ) (names : List (List ℕ)) (k : ℕ)
    → names_package nid names ++ replicate k 0
      ≡ build cmd_ls_success nid
          (le_bytes 4 (length names) ++ (encode_names names ++ replicate k 0))
unfolding append_word
names_package_lem nid names k =
    ap (λ p. append_names (append p (le_bytes 4 (length names))) names ++ replicate k 0)
      (header_lem cmd_ls_success nid)
    ∙ ap (λ p. append_names p names ++ replicate k 0)
        (append-build cmd_ls_success nid [] (le_bytes 4 (length names)))
    ∙ ap (λ p. p ++ replicate k 0)
        (append_names-build cmd_ls_success nid (le_bytes 4 (length names)) names)
    ∙ build-zeros cmd_ls_success nid (le_bytes 4 (length names) ++ encode_names names) k
    ∙ ap (build cmd_ls_success nid)
        (append_assoc (le_bytes 4 (length names)) (encode_names names) (replicate k 0))

ls_response_names :
    (nid : ℕ) (names : List (List ℕ))
    → length (encode_names names) < 2 ^ 30
    → length names < 2 ^ 30
    → ls_response (names_package nid names ++ replicate 18 0) ≡ some names
unfolding ls_response
ls_response_names nid names h k = rw (names_package_lem nid names 18) (
    rw (get_cmd-build cmd_ls_success nid rest (omega arith)) (
      rw
        (read_word-at 4 cmd_ls_success nid [] (encode_names names ++ replicate 18 0) 0
          (length names) refl (omega arith) (omega arith))
        (read_names-build cmd_ls_success nid (le_bytes 4 (length names)) (replicate 18 0) names 4
          (omega (arith, length-le_bytes 4 (length names)))
          (omega (arith, length-le_bytes 4 (length names))))))
  where
    rest : List ℕ
    rest = le_bytes 4 (length names) ++ (encode_names names ++ replicate 18 0)

module _ (qt : QtText) (api : TreeApi qt) where
  open api use {Tree}

  -- `ls` of a node that the server tracks, whose names fit a package, gives exactly the names that the
  -- tree lists, in order, over the copies that `send` and its reply make.
  pub ls-cmd_ls :
      (tree : Tree) (server : NodeSync) (nid t : ℕ)
      → nid < 2 ^ 64
      → get_node server nid ≡ some t
      → length (encode_names (api.ls tree t)) < 2 ^ 30
      → length (api.ls tree t) < 2 ^ 30
      → (resp : Package) × (cmd_ls_handler qt api tree server (ls_request nid ++ replicate 9 0)
          ≡ some resp)
        × (ls_response (resp ++ replicate 18 0) ≡ some (api.ls tree t))
  unfolding cmd_ls_handler ls_request
  ls-cmd_ls tree server nid t hn e h k = (
    names_package nid (api.ls tree t),
    rw (header_lem cmd_ls nid, build-zeros cmd_ls nid [] 9)
        (rw (get_nid-build cmd_ls nid (replicate 9 0) hn) (rw e refl)),
    ls_response_names nid (api.ls tree t) h k,
  )

  -- `ls` of a node id that the server does not track gives no names.
  pub ls-cmd_ls_error :
      (tree : Tree) (server : NodeSync) (nid : ℕ)
      → nid < 2 ^ 64
      → get_node server nid ≡ none
      → (resp : Package) × (cmd_ls_handler qt api tree server (ls_request nid ++ replicate 9 0)
          ≡ some resp)
        × (ls_response (resp ++ replicate 18 0) ≡ some [])
  unfolding cmd_ls_handler ls_request ls_response
  ls-cmd_ls_error tree server nid hn e = (
    header cmd_ls_error nid,
    rw (header_lem cmd_ls nid, build-zeros cmd_ls nid [] 9)
        (rw (get_nid-build cmd_ls nid (replicate 9 0) hn) (rw e refl)),
    rw (header_lem cmd_ls_error nid, build-zeros cmd_ls_error nid [] 18)
        (rw (get_cmd-build cmd_ls_error nid (replicate 18 0) (omega arith)) refl),
  )
