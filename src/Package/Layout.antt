-- ===== src/Package/Layout.antt =====
-- What the header's setters, getters and `append` make of a package, as one normal form.
use treeipc.Base.{
  ℕ, zero, suc, ◌+◌, ◌≤◌, ◌<◌, ◌^◌, ◌≡◌, refl, sym, ap, ap₂, ◌∙◌, List, [], ◌∷◌, ◌++◌, length, take,
  drop, replicate, resize, overwrite, le_bytes, le_value, some, arith, length-append,
  length-le_bytes, length-replicate, resize_grow, overwrite-append, le_value-le_bytes,
  overwrite-nil, le→leb, drop_all, append_assoc, append-nil, All, IsByte, All-take, All-drop,
  length-take, length-drop, take-append-drop, le_bytes-le_value,
}
use treeipc.Package.{Package, extend_by, init, empty, set_nid, set_cmd, get_nid, get_cmd, append}

-- A package with command `c`, node id `n` and the given data behind the header.
abbrev pub build : ℕ → ℕ → List ℕ → Package
build c n payload = le_bytes 8 n ++ (le_bytes 1 c ++ payload)

pub length-build : (c n : ℕ) (payload : List ℕ) → length (build c n payload) ≡ 9 + length payload
length-build c n payload = omega (
  arith,
  length-append (le_bytes 8 n) (le_bytes 1 c ++ payload),
  length-append (le_bytes 1 c) payload,
  length-le_bytes 8 n,
  length-le_bytes 1 c,
)

pub extend_by_lem : (k : ℕ) (p : Package) → extend_by k p ≡ p ++ replicate k 0
unfolding extend_by
extend_by_lem k p = resize_grow p (length p + k) k 0 refl

pub init_lem : (p : Package) → init p ≡ p ++ replicate 9 0
unfolding init
init_lem p =
    extend_by_lem 1 (extend_by 8 p)
    ∙ ap (λ q. q ++ replicate 1 0) (extend_by_lem 8 p)
    ∙ append_assoc p (replicate 8 0) (replicate 1 0)

pub empty_lem : empty ≡ build 0 0 []
unfolding empty init extend_by le_bytes resize
empty_lem = refl

-- What `append` stores is stored behind all that the package holds.
pub append_lem : (p src : Package) → append p src ≡ p ++ src
unfolding append
append_lem p src =
    rw
      (
        extend_by_lem (length src) p,
        overwrite-append p src (replicate (length src) 0)
            (omega (arith, length-replicate {0} (length src) (let z : ℕ = 0 in z))),
      )
      (ap (λ r. p ++ (src ++ r))
          (drop_all (length src) (replicate (length src) 0)
            (omega (arith, length-replicate {0} (length src) (let z : ℕ = 0 in z))))
        ∙ ap (◌++◌ p) (append-nil src))

pub append-build : (c n : ℕ) (d src : List ℕ) → append (build c n d) src ≡ build c n (d ++ src)
append-build c n d src =
    append_lem (build c n d) src
    ∙ append_assoc (le_bytes 8 n) (le_bytes 1 c ++ d) src
    ∙ ap (◌++◌ (le_bytes 8 n)) (append_assoc (le_bytes 1 c) d src)

pub set_nid-build : (m c n : ℕ) (d : List ℕ) → set_nid m (build c n d) ≡ build c m d
unfolding set_nid le_bytes overwrite
set_nid-build m c n d = refl

pub set_cmd-build : (k c n : ℕ) (d : List ℕ) → set_cmd k (build c n d) ≡ build k n d
unfolding set_cmd le_bytes overwrite
set_cmd-build k c n d = ap (λ r. le_bytes 8 n ++ (le_bytes 1 k ++ r)) (overwrite-nil d)

pub get_nid-build : (c n : ℕ) (d : List ℕ) → n < 2 ^ 64 → get_nid (build c n d) ≡ some n
unfolding get_nid le_bytes
get_nid-build c n d h =
    rw (le→leb 8 (length (build c n d)) (omega (arith, length-build c n d)))
      (ap some (le_value-le_bytes 8 n h))

pub get_cmd-build : (c n : ℕ) (d : List ℕ) → c < 256 → get_cmd (build c n d) ≡ some c
unfolding get_cmd le_bytes
get_cmd-build c n d h =
    rw (le→leb 9 (length (build c n d)) (omega (arith, length-build c n d)))
      (ap some (le_value-le_bytes 1 c h))

-- Every byte vector with room for the header is such a package.
pub build_view :
    (p : Package)
    → All IsByte p
    → 9 ≤ length p
    → p ≡ build (le_value (take 1 (drop 8 p))) (le_value (take 8 p)) (drop 9 p)
build_view p h l =
    sym (take-append-drop 8 p)
    ∙ ap₂ ◌++◌ (sym (word 8 (take 8 p) (omega (arith, length-take 8 p)) (All-take IsByte 8 p h))) (
        sym (take-append-drop 1 (drop 8 p))
        ∙ ap₂ ◌++◌
            (sym (
              word 1 (take 1 (drop 8 p)) (omega (arith, length-take 1 (drop 8 p), length-drop 8 p))
                (All-take IsByte 1 (drop 8 p) (All-drop IsByte 8 p h))))
            (drop-drop 8 p))
  where
    word : (w : ℕ) (bs : List ℕ) → length bs ≡ w → All IsByte bs → le_bytes w (le_value bs) ≡ bs
    word w bs e b = rw (← e) (le_bytes-le_value bs b)

    drop-drop : (k : ℕ) (q : List ℕ) → drop 1 (drop k q) ≡ drop (suc k) q
    drop-drop zero q = refl
    drop-drop (suc k) [] = refl
    drop-drop (suc k) (x ∷ q) = drop-drop k q
