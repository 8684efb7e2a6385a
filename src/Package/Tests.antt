-- ===== src/Package/Tests.antt =====
-- Runs of `package` and its strings, and instances of the theorems about them.
use treeipc.Base.{
  ◌+◌, ◌-◌, ◌≤◌, ◌^◌, ◌≡◌, ◌≢◌, ◌↔◌, refl, [], ◌∷◌, ◌++◌, length, replicate, resize, overwrite,
  le_bytes, le_value, some, none, arith,
}
use treeipc.Package.{
  Package, extend_by, init, empty, set_nid, set_cmd, get_nid, get_cmd, copy, append, append_word,
  outside, read, read_word, data_size, add_size,
}
use treeipc.Package.Layout.{build}
use treeipc.Package.Read.{read-ne-outside, read_outside_iff, read_word-at}
use treeipc.Package.Copy.{copy_lem}
use treeipc.Package.Text.{append_string, read_string, read_string_hostile}

-- `CMD_LS` for node 258.
abbrev request : Package
request = 2 ∷ 1 ∷ 0 ∷ 0 ∷ 0 ∷ 0 ∷ 0 ∷ 0 ∷ 4 ∷ 7 ∷ []

built : append (set_nid 258 (set_cmd 4 empty)) (7 ∷ []) ≡ request
unfolding append set_nid set_cmd empty init extend_by resize overwrite le_bytes
built = refl

header_read_back :
    (get_nid request ≡ some 258) × (get_cmd request ≡ some 4) × (data_size request ≡ 1)
unfolding get_nid get_cmd data_size le_value
header_read_back = (refl, refl, refl)

short_package_faults : get_cmd (1 ∷ 2 ∷ []) ≡ none
unfolding get_cmd
short_package_faults = refl

strings_read_back :
    read_string (append_string (append_string empty (65 ∷ 66 ∷ [])) (67 ∷ [])) [] 6
    ≡ some (67 ∷ [], 11)
unfolding read_string append_string append_word append empty init extend_by resize overwrite
    le_bytes le_value read_word read
strings_read_back = refl

copy_lem_example : copy request ≡ some (request ++ replicate 9 0)
copy_lem_example = copy_lem request (omega arith) (omega arith)

read-ne-outside_example : read request 1 4 ≢ outside
read-ne-outside_example = read-ne-outside request 1 4 (omega arith)

read_outside_iff_example : (read request (2 ^ 64 - 13) 4 ≡ outside) ↔ (
    (2 ^ 64 ≤ add_size (2 ^ 64 - 13) 9 + 4)
    × (add_size (2 ^ 64 - 13) 9 + 4 ≤ 2 ^ 64 + length request))
read_outside_iff_example =
    read_outside_iff request (2 ^ 64 - 13) 4 (omega arith) (omega arith) (omega arith)

read_word-at_example :
    read_word 4 (build 4 258 ((9 ∷ []) ++ (le_bytes 4 70000 ++ (8 ∷ [])))) 1 ≡ some 70000
read_word-at_example =
    read_word-at 4 4 258 (9 ∷ []) (8 ∷ []) 1 70000 refl (omega arith) (omega arith)

read_string_hostile_example :
    (read_string (build 15 0 (le_bytes 4 (2 ^ 32 - 17) ++ [])) [] 0
      ≡ some (resize (2 ^ 32 - 17) 0 [], 2 ^ 32 - 13))
    × (read_string (build 15 0 (le_bytes 4 (2 ^ 32 - 17) ++ [])) [] (2 ^ 32 - 13) ≡ none)
read_string_hostile_example =
    read_string_hostile 15 0 [] [] [] (omega arith) (build 15 0 (le_bytes 4 (2 ^ 32 - 17) ++ []))
      refl
