-- ===== src/Package/Copy.antt =====
-- Copies of a package: each passes through the copy constructor and grows by a second header.
use treeipc.Base.{
  ℕ, ◌+◌, ◌≤◌, ◌<◌, ◌^◌, ◌≡◌, sym, ap, ◌∙◌, List, [], ◌++◌, length, take, drop, replicate, resize,
  overwrite, le_bytes, le_value, some, arith, append_assoc, append-nil, All, IsByte, All-take,
  All-drop, le_value-lt, length-take, length-drop, drop_all, length-resize, overwrite-zero,
  length-append, take-drop-append, ◌%◌,
}
use treeipc.Package.{Package, init, copy, assign, get_resp, read, copied}
use treeipc.Package.Layout.{
  build, build_view, init_lem, empty_lem, set_nid-build, set_cmd-build, get_nid-build,
  get_cmd-build,
}

module _ (c n : ℕ) (d : List ℕ) (hc : c < 256) (hn : n < 2 ^ 64) where
  init-build : init (build c n d) ≡ build c n (d ++ replicate 9 0)
  init-build =
      init_lem (build c n d)
      ∙ append_assoc (le_bytes 8 n) (le_bytes 1 c ++ d) (replicate 9 0)
      ∙ ap (◌++◌ (le_bytes 8 n)) (append_assoc (le_bytes 1 c) d (replicate 9 0))

  pub copy-build : copy (build c n d) ≡ some (build c n (d ++ replicate 9 0))
  unfolding copy
  copy-build = rw (
    get_cmd-build c n d hc,
    get_nid-build c n d hn,
    init-build,
    set_cmd-build c c n (d ++ replicate 9 0),
    set_nid-build n c n (d ++ replicate 9 0),
  )

  pub assign-build :
      (this : Package) → assign this (build c n d) ≡ some (build c n (d ++ replicate 9 0))
  unfolding assign
  assign-build this = rw (copy-build) (
      rw (
        filled,
        get_nid-build c n (d ++ replicate 9 0) hn,
        get_cmd-build c n (d ++ replicate 9 0) hc,
        set_nid-build n c n (d ++ replicate 9 0),
        set_cmd-build c c n (d ++ replicate 9 0),
      ))
    where
      op : Package
      op = build c n (d ++ replicate 9 0)

      filled : overwrite 0 op (resize (length op) 0 this) ≡ op
      filled =
          overwrite-zero op (resize (length op) 0 this)
            (omega (arith, length-resize (length op) 0 this))
          ∙ ap (◌++◌ op) (
              drop_all (length op) (resize (length op) 0 this)
                (omega (arith, length-resize (length op) 0 this)))
          ∙ append-nil op

  -- `get_resp` keeps the header and drops the data.
  pub get_resp-build : get_resp (build c n d) ≡ some (build c n [])
  unfolding get_resp
  get_resp-build = rw (
    get_cmd-build c n d hc,
    get_nid-build c n d hn,
    empty_lem,
    set_cmd-build c 0 0 [],
    set_nid-build n c 0 [],
  )

module _ (p : Package) (bytes : All IsByte p) (header : 9 ≤ length p) where
  nid_lt : le_value (take 8 p) < 2 ^ 64
  nid_lt = omega (
    arith,
    le_value-lt (take 8 p) (All-take IsByte 8 p bytes),
    ap (λ k. 256 ^ k) (let e : length (take 8 p) ≡ 8 = omega (arith, length-take 8 p) in e),
  )

  cmd_lt : le_value (take 1 (drop 8 p)) < 256
  cmd_lt = omega (
    arith,
    le_value-lt (take 1 (drop 8 p)) (All-take IsByte 1 (drop 8 p) (All-drop IsByte 8 p bytes)),
    ap (λ k. 256 ^ k)
        (let e : length (take 1 (drop 8 p)) ≡ 1 =
            omega (arith, length-take 1 (drop 8 p), length-drop 8 p) in
          e),
  )

  abbrev c : ℕ
  c = le_value (take 1 (drop 8 p))

  abbrev n : ℕ
  n = le_value (take 8 p)

  view : p ≡ build c n (drop 9 p)
  view = build_view p bytes header

  regroup : build c n (drop 9 p ++ replicate 9 0) ≡ build c n (drop 9 p) ++ replicate 9 0
  regroup = sym (
      append_assoc (le_bytes 8 n) (le_bytes 1 c ++ drop 9 p) (replicate 9 0)
      ∙ ap (◌++◌ (le_bytes 8 n)) (append_assoc (le_bytes 1 c) (drop 9 p) (replicate 9 0)))

  -- The copy constructor gives the same bytes and nine zero bytes behind them.
  pub copy_lem : copy p ≡ some (p ++ replicate 9 0)
  copy_lem =
      ap copy view
      ∙ copy-build c n (drop 9 p) cmd_lt nid_lt
      ∙ ap some (regroup ∙ ap (λ q. q ++ replicate 9 0) (sym view))

  -- So does assignment, whatever the target held.
  pub assign_lem : (this : Package) → assign this p ≡ some (p ++ replicate 9 0)
  assign_lem this =
      ap (assign this) view
      ∙ assign-build c n (drop 9 p) cmd_lt nid_lt this
      ∙ ap some (regroup ∙ ap (λ q. q ++ replicate 9 0) (sym view))

-- What `read` copies from a package it copies from its copy too.
pub read-copy :
    (p q : Package) (pos sz : ℕ) (bs : List ℕ)
    → All IsByte p
    → 9 ≤ length p
    → pos + 9 + sz < 2 ^ 64
    → copy p ≡ some q
    → read p pos sz ≡ copied bs
    → read q pos sz ≡ copied bs
unfolding read
read-copy p q pos sz bs hb hl h e r =
    rw (let eq : q ≡ p ++ replicate 9 0 = cc (copy_lem p hb hl) in eq) (
      ground (
        arith,
        length-append p (replicate 9 0),
        take-drop-append ((pos + 9) % 2 ^ 64) sz p (replicate 9 0),
      ))
