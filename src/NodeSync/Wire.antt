-- ===== src/NodeSync/Wire.antt =====
-- The packages that the operations build, and how they look after the copies of `send`.
use treeipc.Base.{
  ℕ, ◌+◌, ◌<◌, ◌≡◌, ◌^◌, refl, ap, ◌∙◌, List, [], ◌++◌, length, replicate, some, arith, le_bytes,
  append_assoc,
}
use treeipc.Package.{Package, empty, set_nid, set_cmd}
use treeipc.Package.Layout.{build, empty_lem, set_nid-build, set_cmd-build}
use treeipc.Package.Text.{
  append_string, append_string-build, read_string, read_string-at, encode_string,
}

-- A package with a command and an id.
unfoldable pub header : ℕ → ℕ → Package
header cmd nid = set_nid nid (set_cmd cmd empty)

pub header_lem : (cmd nid : ℕ) → header cmd nid ≡ build cmd nid []
unfolding header
header_lem cmd nid =
    ap (λ p. set_nid nid (set_cmd cmd p)) empty_lem
    ∙ ap (set_nid nid) (set_cmd-build cmd 0 0 [])
    ∙ set_nid-build nid cmd 0 []

pub header-append_string :
    (cmd nid : ℕ) (s : List ℕ) → append_string (header cmd nid) s ≡ build cmd nid (encode_string s)
header-append_string cmd nid s =
    ap (λ p. append_string p s) (header_lem cmd nid) ∙ append_string-build cmd nid [] s

-- Zero bytes behind a package stand behind its data.
pub build-zeros :
    (cmd nid : ℕ) (d : List ℕ) (k : ℕ)
    → build cmd nid d ++ replicate k 0 ≡ build cmd nid (d ++ replicate k 0)
build-zeros cmd nid d k =
    append_assoc (le_bytes 8 nid) (le_bytes 1 cmd ++ d) (replicate k 0)
    ∙ ap (◌++◌ (le_bytes 8 nid)) (append_assoc (le_bytes 1 cmd) d (replicate k 0))

-- The first string of a package.
pub read_string-first :
    (cmd nid : ℕ) (s post : List ℕ)
    → length s < 2 ^ 30
    → read_string (build cmd nid (encode_string s ++ post)) [] 0 ≡ some (s, 4 + length s)
read_string-first cmd nid s post h =
    read_string-at cmd nid [] s post [] 0 refl (omega arith) ∙ ap (λ k. some (s, k)) (omega arith)
