-- ===== src/Package/Read.antt =====
-- `package::read`: what it copies, what it refuses, and when its bounds test is no test.
use treeipc.Base.{
  ℕ, ◌+◌, ◌≤◌, ◌<◌, ◌^◌, ◌≡◌, ◌≢◌, ◌↔◌, sym, ap, List, ◌++◌, length, take, drop, le_bytes, leb,
  if◌then◌else◌, some, arith, length-append, length-le_bytes, le_value-le_bytes, take-append,
  drop-append, le→leb, lt→leb, drop-add,
}
use treeipc.Package.{Package, refused, copied, outside, read, read_word, add_size}
use treeipc.Package.Layout.{build, length-build}

-- While `pos + header_size + sz` does not wrap, `read` never touches a byte outside the vector.
pub read-ne-outside : (p : Package) (pos sz : ℕ) → pos + 9 + sz < 2 ^ 64 → read p pos sz ≢ outside
unfolding read
read-ne-outside p pos sz h = ground arith

-- The exact condition under which the test lets a `memcpy` from outside the vector through.
pub read_outside_iff :
    (p : Package) (pos sz : ℕ)
    → length p < 2 ^ 64
    → pos < 2 ^ 64
    → sz < 2 ^ 64
    → (read p pos sz ≡ outside)
      ↔ ((2 ^ 64 ≤ add_size pos 9 + sz) × (add_size pos 9 + sz ≤ 2 ^ 64 + length p))
unfolding read
read_outside_iff p pos sz hl hp hs = ground arith

drop_header : (k c n : ℕ) (d : List ℕ) → drop (k + 9) (build c n d) ≡ drop k d
unfolding le_bytes
drop_header k c n d = drop-add k 9 (build c n d)

-- A read of a built package sees its data.
pub read-build :
    (c n : ℕ) (d : List ℕ) (pos sz : ℕ)
    → pos + 9 + sz < 2 ^ 64
    → read (build c n d) pos sz
      ≡ (if leb (pos + sz) (length d) then copied (take sz (drop pos d)) else refused)
unfolding read
read-build c n d pos sz h = ground (arith, length-build c n d, drop_header pos c n d)

-- What stands in the data at an offset is what `read` copies from there.
pub read-at :
    (c n : ℕ) (pre mid post : List ℕ) (pos sz : ℕ)
    → pos ≡ length pre
    → sz ≡ length mid
    → length pre + length mid + 9 < 2 ^ 64
    → read (build c n (pre ++ (mid ++ post))) pos sz ≡ copied mid
read-at c n pre mid post pos sz ep es h =
    rw (ep, es)
      (rw (
        read-build c n (pre ++ (mid ++ post)) (length pre) (length mid) (omega arith),
        le→leb (length pre + length mid) (length (pre ++ (mid ++ post)))
            (omega (arith, length-append pre (mid ++ post), length-append mid post)),
        drop-append pre (mid ++ post),
        take-append mid post,
      ))

-- An integer of `w` bytes that was appended is read back from its position.
pub read_word-at :
    (w c n : ℕ) (pre post : List ℕ) (pos v : ℕ)
    → pos ≡ length pre
    → v < 256 ^ w
    → length pre + w + 9 < 2 ^ 64
    → read_word w (build c n (pre ++ (le_bytes w v ++ post))) pos ≡ some v
unfolding read_word
read_word-at w c n pre post pos v ep hv h =
    rw
      (read-at c n pre (le_bytes w v) post pos w ep (sym (length-le_bytes w v))
        (omega (arith, length-le_bytes w v)))
      (ap some (le_value-le_bytes w v hv))

-- Past the end of the data `read<type>` gives zero.
pub read_word_past :
    (w c n : ℕ) (d : List ℕ) (pos : ℕ)
    → length d < pos + w
    → pos + 9 + w < 2 ^ 64
    → read_word w (build c n d) pos ≡ some 0
unfolding read_word
read_word_past w c n d pos hd h = rw (read-build c n d pos w h, lt→leb (pos + w) (length d) hd)
