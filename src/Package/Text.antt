-- ===== src/Package/Text.antt =====
-- package.cpp: length-prefixed strings in a package.
use treeipc.Base.{
  ℕ, ◌+◌, ◌-◌, ◌<◌, ◌%◌, ◌^◌, ◌≡◌, refl, ap, ◌∙◌, List, [], ◌++◌, length, resize, le_bytes, ltb,
  if◌then◌else◌, Option, none, some, ◌>>=◌, arith, length-append, length-le_bytes, append_assoc,
  lt→leb,
}
use treeipc.Package.{
  Package, ReadResult, refused, copied, outside, append, append_word, read, read_word,
  value_or_zero,
}
use treeipc.Package.Layout.{build, append-build, length-build}
use treeipc.Package.Read.{read-build, read_outside_iff, read-at, read_word-at}

-- An `int`, as a 32-bit pattern, converted to `size_t`.
abbrev pub size_of_int : ℕ → ℕ
size_of_int w = if ltb w (2 ^ 31) then w else w + (2 ^ 64 - 2 ^ 32)

unfoldable pub append_string : Package → List ℕ → Package
append_string pack s = append (append_word 4 pack (length s)) s

-- The string after a `read` into its storage.
abbrev pub filled : List ℕ → ReadResult → Option (List ℕ)
filled s refused = some s
filled s (copied bs) = some bs
filled s outside = none

-- The string that was read, and the position behind it. `s` is the string passed by reference and
-- `pos` an `int`, as a 32-bit pattern.
unfoldable pub read_string : Package → List ℕ → ℕ → Option (List ℕ × ℕ)
read_string pack s pos = do
  sz ← read_word 4 pack (size_of_int pos)
  let pos = (pos + 4) % 2 ^ 32
  s ← filled (resize sz 0 s) (read pack (size_of_int pos) sz)
  some (s, (pos + sz) % 2 ^ 32)

-- The bytes of a string in a package.
abbrev pub encode_string : List ℕ → List ℕ
encode_string s = le_bytes 4 (length s) ++ s

pub append_string-build :
    (c n : ℕ) (d s : List ℕ) → append_string (build c n d) s ≡ build c n (d ++ encode_string s)
unfolding append_string append_word
append_string-build c n d s =
    ap (λ p. append p s) (append-build c n d (le_bytes 4 (length s)))
    ∙ append-build c n (d ++ le_bytes 4 (length s)) s
    ∙ ap (build c n) (append_assoc d (le_bytes 4 (length s)) s)

pub length-encode_string : (s : List ℕ) → length (encode_string s) ≡ 4 + length s
length-encode_string s =
    omega (arith, length-append (le_bytes 4 (length s)) s, length-le_bytes 4 (length s))

-- A string that was appended, with any data before and after it, and its end below 2 ^ 31, is read back from its position,
-- whatever the target string held, and the position returned is the one behind it.
pub read_string-at :
    (c n : ℕ) (pre s post t : List ℕ) (pos : ℕ)
    → pos ≡ length pre
    → length pre + 4 + length s < 2 ^ 31
    → read_string (build c n (pre ++ (encode_string s ++ post))) t pos
      ≡ some (s, pos + 4 + length s)
unfolding read_string
read_string-at c n pre s post t pos ep h =
    rw (size_pos, size_at) (rw (data_pos, data_at) (ap (λ k. some (s, k)) (omega arith)))
  where
    size_pos : size_of_int pos ≡ pos
    size_pos = ground arith

    size_at : read_word 4 (build c n (pre ++ (encode_string s ++ post))) pos ≡ some (length s)
    size_at =
        rw (append_assoc (le_bytes 4 (length s)) s post)
          (read_word-at 4 c n pre (s ++ post) pos (length s) ep (omega arith) (omega arith))

    data_pos : size_of_int ((pos + 4) % 2 ^ 32) ≡ pos + 4
    data_pos = ground arith

    data_at : read (build c n (pre ++ (encode_string s ++ post))) (pos + 4) (length s) ≡ copied s
    data_at =
        rw
          (
            append_assoc (le_bytes 4 (length s)) s post,
            ← append_assoc pre (le_bytes 4 (length s)) (s ++ post),
          )
          (read-at c n (pre ++ le_bytes 4 (length s)) s post (pos + 4) (length s)
            (omega (arith, length-append pre (le_bytes 4 (length s)), length-le_bytes 4 (length s)))
            refl
            (omega
              (arith, length-append pre (le_bytes 4 (length s)), length-le_bytes 4 (length s))))

-- A length field of 2 ^ 32 - 17 with less text behind it: the first `read_string` leaves the string
-- zero and returns an `int` position of -13, and the next one reads from before the vector.
pub read_string_hostile :
    (c n : ℕ) (d s t : List ℕ)
    → length d < 2 ^ 31
    → (p : Package) → p ≡ build c n (le_bytes 4 (2 ^ 32 - 17) ++ d)
    → (read_string p s 0 ≡ some (resize (2 ^ 32 - 17) 0 s, 2 ^ 32 - 13))
      × (read_string p t (2 ^ 32 - 13) ≡ none)
unfolding read_string read_word
read_string_hostile c n d s t h p e = (rw (size_at) (rw (refused_at) refl), rw (outside_at) refl)
  where
    whole : length (le_bytes 4 (2 ^ 32 - 17) ++ d) ≡ 4 + length d
    whole =
        omega (arith, length-append (le_bytes 4 (2 ^ 32 - 17)) d, length-le_bytes 4 (2 ^ 32 - 17))

    size_at : read_word 4 p 0 ≡ some (2 ^ 32 - 17)
    size_at = rw e (read_word-at 4 c n [] d 0 (2 ^ 32 - 17) refl (omega arith) (omega arith))

    size : length p ≡ 13 + length d
    size = omega (arith, ap length e, length-build c n (le_bytes 4 (2 ^ 32 - 17) ++ d), whole)

    refused_at : read p 4 (2 ^ 32 - 17) ≡ refused
    refused_at = rw e (
        rw (read-build c n (le_bytes 4 (2 ^ 32 - 17) ++ d) 4 (2 ^ 32 - 17) (omega arith)) (
          rw
            (lt→leb (4 + (2 ^ 32 - 17)) (length (le_bytes 4 (2 ^ 32 - 17) ++ d))
              (omega (arith, whole)))
            refl))

    outside_at : read_word 4 p (2 ^ 64 - 13) ≡ none
    outside_at = ap value_or_zero (
        (read_outside_iff p (2 ^ 64 - 13) 4 (omega (arith, size)) (omega arith) (omega arith)).1
          (omega (arith, size)))
