-- ===== src/Codec/Stream.antt =====
-- What the codec makes of a byte stream that is cut anywhere: the vectors framed in it, in order.
use treeipc.Base.{
  ℕ, suc, ◌≤◌, ◌<◌, ◌≡◌, ◌⊎◌, inl, inr, refl, sym, ap, subst, ◌∙◌, List, [], ◌∷◌, ◌++◌, length,
  flatten, All, le_bytes, le_value, true, arith, length-append, length-le_bytes, append_assoc,
  append-nil, All-right,
}
use treeipc.Codec.{Codec, new_codec, read_size, is_waiting, drain, process_notification, feed}
use treeipc.Codec.Frames.{
  encode, encode_all, IsFrame, Holds, IsStarved, Drained, drain-Drained, read_size-takes,
}

Holds-more :
    (c : Codec) (chunk ys : List ℕ) (fs : List (List ℕ))
    → Holds c (chunk ++ ys) fs
    → Holds (record c { buffer = c.buffer ++ chunk }) ys fs
Holds-more c chunk ys fs (inl (z, e)) = inl (z, append_assoc c.buffer chunk ys ∙ e)
Holds-more c chunk ys fs (inr (f, rest, e, s, b)) =
    inr (f, rest, e, s, append_assoc c.buffer chunk ys ∙ b)

feed-Drained :
    (c : Codec) (chunks : List (List ℕ)) (ys : List ℕ) (fs : List (List ℕ))
    → All IsFrame fs
    → Holds c (flatten chunks ++ ys) fs
    → IsStarved c
    → Drained ys fs (feed c chunks)
unfolding feed process_notification
feed-Drained c [] ys fs a k s = record { left = fs; split = refl; holds = k; starved = s }
feed-Drained c (chunk ∷ chunks) ys fs a k s =
    let buffer = c.buffer ++ chunk in
    let here =
      drain-Drained (flatten chunks ++ ys) (suc (length buffer)) (record c { buffer = buffer }) fs
        (omega arith) a
        (Holds-more c chunk (flatten chunks ++ ys) fs
          (subst (λ k. Holds c k fs) (append_assoc chunk (flatten chunks) ys) k)) in
    let later =
      feed-Drained (process_notification c chunk).0 chunks ys here.left
        (All-right IsFrame (process_notification c chunk).1 here.left
          (subst (All IsFrame) here.split a))
        here.holds here.starved in
    record {
      left = later.left;
      split =
          here.split
          ∙ ap (◌++◌ (process_notification c chunk).1) later.split
          ∙ sym (
              append_assoc (process_notification c chunk).1
                (feed (process_notification c chunk).0 chunks).1 later.left);
      holds = later.holds;
      starved = later.starved;
    }

new_codec-waits : is_waiting new_codec ≡ true
unfolding is_waiting
new_codec-waits = refl

-- With no byte to come, a codec that waits holds nothing.
starved-end :
    (c : Codec) (left : List (List ℕ))
    → All IsFrame left
    → Holds c [] left
    → IsStarved c
    → (left ≡ []) × (c ≡ new_codec)
unfolding is_waiting
starved-end c [] a (inl (z, e)) s =
    (refl, λ i. record { buffer = (sym (append-nil c.buffer) ∙ e) i; pack_size = z i })
starved-end c (f ∷ rest) a (inl (z, e)) s = absurd (
    omega (
      arith,
      s.1 z,
      ap length (sym (append-nil c.buffer) ∙ e),
      length-append (encode f) (encode_all rest),
      length-append (le_bytes 4 (length f)) f,
      length-le_bytes 4 (length f),
    ))
starved-end c left a (inr (f, rest, e, s, b)) w =
    let frames : All IsFrame (f ∷ rest) = subst (All IsFrame) e a in
    let whole : length f ≤ length c.buffer =
      omega (arith, ap length (sym (append-nil c.buffer) ∙ b), length-append f (encode_all rest)) in
    absurd (not-waiting whole frames.0.0)
  where
    not-waiting : length f ≤ length c.buffer → 0 < length f → ⊥
    not-waiting h p = ground arith

-- However the stream that carries the frames of `fs`, none of them empty or of 2 ^ 32 bytes or more, is
-- cut into notifications, the codec hands on exactly `fs`, in order, and ends as it began.
pub feed_frames :
    (fs chunks : List (List ℕ))
    → All IsFrame fs
    → flatten chunks ≡ encode_all fs
    → feed new_codec chunks ≡ (new_codec, fs)
feed_frames fs chunks a e =
    let r =
      feed-Drained new_codec chunks [] fs a (inl (refl, append-nil (flatten chunks) ∙ e)) start in
    let done =
      starved-end (feed new_codec chunks).0 r.left
        (All-right IsFrame (feed new_codec chunks).1 r.left (subst (All IsFrame) r.split a)) r.holds
        r.starved in
    λ i. (
      done.1 i,
      sym
          (r.split
            ∙ ap (◌++◌ (feed new_codec chunks).1) done.0
            ∙ append-nil (feed new_codec chunks).1)
          i,
    )
  where
    start : IsStarved new_codec
    start = (new_codec-waits, λ _. omega arith)

-- What is missing when a codec waits: more than the frames behind the next one.
starved_missing :
    (c : Codec) (ys : List ℕ) (left : List (List ℕ)) (f : List ℕ) (rest : List (List ℕ))
    → Holds c ys left
    → IsStarved c
    → left ≡ f ∷ rest
    → 0 < length f
    → length (encode_all rest) < length ys
unfolding is_waiting
starved_missing c ys left f rest (inl (z, e)) s eq p = omega (
  arith,
  s.1 z,
  ap length (e ∙ ap encode_all eq),
  length-append c.buffer ys,
  length-append (encode f) (encode_all rest),
  length-append (le_bytes 4 (length f)) f,
  length-le_bytes 4 (length f),
)
starved_missing c ys left f rest (inr (g, more, e, s, b)) w eq p =
    let same : g ∷ more ≡ f ∷ rest = sym e ∙ eq in
    let sizes : length g ≡ length f = ap length (head_eq same) in
    let rests : length (encode_all more) ≡ length (encode_all rest) =
      ap (λ l. length (encode_all l)) (tail_eq same) in
    let short : length c.buffer < length g = waits (omega arith) in
    omega (arith, ap length b, length-append c.buffer ys, length-append g (encode_all more))
  where
    head_eq : g ∷ more ≡ f ∷ rest → g ≡ f
    head_eq q = cc

    tail_eq : g ∷ more ≡ f ∷ rest → more ≡ rest
    tail_eq q = cc

    waits : 0 < length g → length c.buffer < length g
    waits h = ground arith

left_cases :
    (l : List (List ℕ)) → (l ≡ []) ⊎ ((f : List ℕ) × (rest : List (List ℕ)) × (l ≡ f ∷ rest))
left_cases [] = inl refl
left_cases (f ∷ rest) = inr (f, rest, refl)

-- While the stream of the frames of `fs`, none of them empty or too long, has not arrived whole, the vectors handed on are the first
-- ones of `fs`, unchanged and in order, and none that has arrived whole is held back: the bytes
-- still to come reach into the next frame.
pub feed_prefix :
    (fs chunks : List (List ℕ)) (ys : List ℕ)
    → All IsFrame fs
    → flatten chunks ++ ys ≡ encode_all fs
    → (left : List (List ℕ)) × (fs ≡ (feed new_codec chunks).1 ++ left)
      × ((left ≡ [])
          ⊎ ((f : List ℕ) × (rest : List (List ℕ)) × (left ≡ f ∷ rest)
              × (length (encode_all rest) < length ys)))
feed_prefix fs chunks ys a e =
    let r =
      feed-Drained new_codec chunks ys fs a (inl (refl, e)) (new_codec-waits, λ _. omega arith) in
    let frames =
      All-right IsFrame (feed new_codec chunks).1 r.left (subst (All IsFrame) r.split a) in
    (
      r.left,
      r.split,
      elim (left_cases r.left) [
        | inl none_left ↦ inl none_left
        | inr (f, rest, eq) ↦ inr (
          f,
          rest,
          eq,
          starved_missing (feed new_codec chunks).0 ys r.left f rest r.holds r.starved eq
              (let here : All IsFrame (f ∷ rest) = subst (All IsFrame) eq frames in here.0.0),
        )
      ],
    )

drain_stop :
    (k : ℕ) (c : Codec) → is_waiting (read_size c) ≡ true → drain (suc k) c ≡ (read_size c, [])
unfolding drain
drain_stop k c h = rw h

zero_size :
    (rest : List ℕ)
    → read_size (record { buffer = le_bytes 4 0 ++ rest; pack_size = 0 })
      ≡ record { buffer = rest; pack_size = 0 }
unfolding le_bytes le_value
zero_size rest =
    read_size-takes (record { buffer = le_bytes 4 0 ++ rest; pack_size = 0 }) refl (omega arith)

zero_waits : (rest : List ℕ) → is_waiting (record { buffer = rest; pack_size = 0 }) ≡ true
unfolding is_waiting
zero_waits rest = refl

-- A frame of length zero stops the loop: whatever the same notification brings behind it stays in
-- the buffer.
pub feed_empty_frame :
    (rest : List ℕ)
    → process_notification new_codec (le_bytes 4 0 ++ rest)
      ≡ (record { buffer = rest; pack_size = 0 }, [])
unfolding process_notification
feed_empty_frame rest =
    drain_stop (length (le_bytes 4 0 ++ rest)) _ (ap is_waiting (zero_size rest) ∙ zero_waits rest)
    ∙ ap (λ c. (c, [])) (zero_size rest)
