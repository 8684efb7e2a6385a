-- ===== src/Codec/Frames.antt =====
-- Frames on the wire, and what one run of the loop in `process_notification` takes from the buffer.
use treeipc.Base.{
  ℕ, zero, suc, ◌≤◌, ◌<◌, ◌^◌, ◌≡◌, ◌⊎◌, inl, inr, refl, sym, ap, ap₂, subst, ◌∙◌, List, [], ◌∷◌,
  ◌++◌, length, take, drop, All, le_bytes, le_value, true, false, Bool-cases, arith,
  length-le_bytes, le_value-le_bytes, take-split, append_assoc, append-eq-nil, dec_le,
}
use treeipc.Codec.{Codec, read_size, is_waiting, consume, drain}
use treeipc.Codec.Loop.{consume_shorter, length-read_size}

-- A vector on the wire: its length, then its bytes.
abbrev pub encode : List ℕ → List ℕ
encode f = le_bytes 4 (length f) ++ f

abbrev pub encode_all : List (List ℕ) → List ℕ
encode_all [] = []
encode_all (f ∷ fs) = encode f ++ encode_all fs

-- A vector that a frame can hold, and not the empty one.
abbrev pub IsFrame : List ℕ → Type 0
IsFrame f = (0 < length f) × (length f < 2 ^ 32)

-- What `c` holds, with the bytes `ys` still to come, is the encoding of `fs`.
abbrev pub Holds : Codec → List ℕ → List (List ℕ) → Type 0
Holds c ys fs =
    ((c.pack_size ≡ 0) × (c.buffer ++ ys ≡ encode_all fs))
    ⊎ ((f : List ℕ) × (rest : List (List ℕ)) × (fs ≡ f ∷ rest)
        × (c.pack_size ≡ length f)
        × (c.buffer ++ ys ≡ f ++ encode_all rest))

-- A codec that has taken all the vectors that it could.
abbrev pub IsStarved : Codec → Type 0
IsStarved c = (is_waiting c ≡ true) × (c.pack_size ≡ 0 → length c.buffer < 4)

read_size-keeps : (c : Codec) → (c.pack_size ≡ 0 → length c.buffer < 4) → read_size c ≡ c
unfolding read_size
read_size-keeps c h = ground arith

pub read_size-takes :
    (c : Codec)
    → c.pack_size ≡ 0
    → 4 ≤ length c.buffer
    → read_size c ≡ record { buffer = drop 4 c.buffer; pack_size = le_value (take 4 c.buffer) }
unfolding read_size
read_size-takes c z h = ground arith

module _ (ys : List ℕ) where
  -- The length of the next frame, cut from the front of the buffer.
  length-prefix :
      (b f : List ℕ) (rest : List (List ℕ))
      → 4 ≤ length b
      → length f < 2 ^ 32
      → b ++ ys ≡ encode_all (f ∷ rest)
      → (le_value (take 4 b) ≡ length f) × (drop 4 b ++ ys ≡ f ++ encode_all rest)
  length-prefix b f rest h l e =
      (ap le_value cut.0 ∙ le_value-le_bytes 4 (length f) (omega arith), cut.1)
    where
      cut : (take 4 b ≡ le_bytes 4 (length f)) × (drop 4 b ++ ys ≡ f ++ encode_all rest)
      cut =
          subst (λ k. (take k b ≡ le_bytes 4 (length f)) × (drop k b ++ ys ≡ f ++ encode_all rest))
            (length-le_bytes 4 (length f))
            (take-split (le_bytes 4 (length f)) (f ++ encode_all rest) b ys
              (omega (arith, length-le_bytes 4 (length f)))
              (e ∙ append_assoc (le_bytes 4 (length f)) f (encode_all rest)))

  -- After the loop's first test.
  Ready : Codec → List (List ℕ) → Type 0
  Ready c fs = Holds c ys fs × (c.pack_size ≡ 0 → length c.buffer < 4)

  read_size-Ready :
      (c : Codec) (fs : List (List ℕ)) → All IsFrame fs → Holds c ys fs → Ready (read_size c) fs
  unfolding Ready
  read_size-Ready c fs a (inr (f, rest, e, s, b)) =
      let frames : All IsFrame (f ∷ rest) = subst (All IsFrame) e a in
      subst (λ k. Ready k fs) (sym (read_size-keeps c (λ z. absurd (omega arith))))
        (inr (f, rest, e, s, b), λ z. absurd (omega arith))
  read_size-Ready c [] a (inl (z, e)) =
      let short : length c.buffer < 4 = omega (arith, ap length (append-eq-nil c.buffer ys e)) in
      subst (λ k. Ready k []) (sym (read_size-keeps c (λ _. short))) (inl (z, e), λ _. short)
  read_size-Ready c (f ∷ rest) a (inl (z, e)) = elim (dec_le 4 (length c.buffer)) [
    | yes enough ↦
        let cut = length-prefix c.buffer f rest enough a.0.1 e in
        subst (λ k. Ready k (f ∷ rest)) (sym (read_size-takes c z enough))
          (inr (f, rest, refl, cut.0, cut.1), λ zero_size. absurd (omega arith))
    | no short ↦
        subst (λ k. Ready k (f ∷ rest)) (sym (read_size-keeps c (λ _. omega arith)))
          (inl (z, e), λ _. omega arith)
  ]

  -- A round that does not wait hands on the next frame.
  consume-Holds :
      (c : Codec) (fs : List (List ℕ))
      → Ready c fs
      → is_waiting c ≡ false
      → (f : List ℕ) × (rest : List (List ℕ)) × (fs ≡ f ∷ rest)
        × (take c.pack_size c.buffer ≡ f)
        × Holds (consume c) ys rest
  unfolding Ready is_waiting consume
  consume-Holds c fs (inl (z, e), short) w = absurd (ground arith)
  consume-Holds c fs (inr (f, rest, e, s, b), short) w =
      let cut = take-split f (encode_all rest) c.buffer ys (ground arith) b in
      (f, rest, e, rw s cut.0, inl (refl, rw s cut.1))

  -- The frames `out` have been taken from `fs`, and the codec waits for the rest.
  pub record Drained (fs : List (List ℕ)) (r : Codec × List (List ℕ)) : Type 0 where
    pub left : List (List ℕ)
    pub split : fs ≡ r.1 ++ left
    pub holds : Holds r.0 ys left
    pub starved : IsStarved r.0

  pub drain-Drained :
      (fuel : ℕ) (c : Codec) (fs : List (List ℕ))
      → length c.buffer < fuel
      → All IsFrame fs
      → Holds c ys fs
      → Drained fs (drain fuel c)
  unfolding drain
  drain-Drained zero c fs h a k = elim h [ ]
  drain-Drained (suc fuel) c fs h a k =
      let ready = read_size-Ready c fs a k in
      elim (Bool-cases (is_waiting (read_size c))) [
        | inl stop ↦ rw stop (
            unfold Ready in
            record { left = fs; split = refl; holds = ready.0; starved = (stop, ready.1) })
        | inr more ↦
            let next = consume-Holds (read_size c) fs ready more in
            let frames : All IsFrame (next.0 ∷ next.1) = subst (All IsFrame) next.2 a in
            let rest =
              drain-Drained fuel (consume (read_size c)) next.1
                (omega (arith, consume_shorter (read_size c) more, length-read_size c)) frames.1
                next.4 in
            rw more (record {
              left = rest.left;
              split = next.2 ∙ ap₂ ◌∷◌ (sym next.3) rest.split;
              holds = rest.holds;
              starved = rest.starved;
            })
      ]
