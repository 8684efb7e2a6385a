-- ===== src/Codec/Send.antt =====
-- `package_codec::write` over any transport, and the way from one codec's `write` to the other's
-- notifications.
use treeipc.Base.{
  ℕ, ◌+◌, ◌≤◌, ◌<◌, ◌^◌, ◌≡◌, refl, sym, ap, ap₂, ◌∙◌, List, [], ◌∷◌, ◌++◌, length, take, flatten,
  All, le_bytes, Bool, true, false, Option, none, some, arith, length-append, length-le_bytes,
  length-take, append_assoc, append-nil, take_all, ◌==◌, ==_iff, ◌↔◌, inl, inr, Bool-cases,
}
use treeipc.Transport.{Transport}
use treeipc.Codec.{write, feed, new_codec}
use treeipc.Codec.Frames.{encode, encode_all, IsFrame}
use treeipc.Codec.Stream.{feed_frames}

module _ (t : Transport) where
  open t use {State, sent}

  -- The bytes that two writes send.
  sent-two :
      (s : State) (a b : List ℕ)
      → let (s', n) = t.write s a in
        let (s'', m) = t.write s' b in sent s'' ≡ sent s ++ (take n a ++ take m b)
  sent-two s a b =
      t.sent-write (t.write s a).0 b
      ∙ ap (λ l. l ++ take (t.write (t.write s a).0 b).1 b) (t.sent-write s a)
      ∙ append_assoc (sent s) (take (t.write s a).1 a) (take (t.write (t.write s a).0 b).1 b)

  sent_or : List ℕ → Option State → List ℕ
  sent_or d none = d
  sent_or d (some s) = sent s

  -- What a `write` over a transport that returned `ok` has sent.
  write_cases :
      (s s' : State) (p : List ℕ) (ok : Bool)
      → length p < 2 ^ 31
      → write t (some s) p ≡ (some s', ok)
      → (ok ≡ true → sent s' ≡ sent s ++ encode p)
        × (ok ≡ false → length (sent s') < length (sent s) + 4 + length p)
  unfolding write sent_or
  write_cases s s' p ok h e = (λ y. whole (full y), λ y. partial (short y))
    where
      head : List ℕ
      head = le_bytes 4 (length p)

      n : ℕ
      n = (t.write s head).1

      m : ℕ
      m = (t.write (t.write s head).0 p).1

      sent' : sent s' ≡ sent s ++ (take n head ++ take m p)
      sent' = ap (λ o. sent_or (sent s') o) (sym (ap (λ r. r.0) e)) ∙ sent-two s head p

      n-le : n ≤ 4
      n-le = omega (arith, t.write-le s head, length-le_bytes 4 (length p))

      m-le : m ≤ length p
      m-le = t.write-le (t.write s head).0 p

      full : ok ≡ true → (n ≡ 4) × (m ≡ length p)
      full y =
          let test : ((n + m) == (length p + 4)) ≡ true = ap (λ r. r.1) e ∙ y in
          let sum = (==_iff (n + m) (length p + 4)).0 test in omega (arith, n-le, m-le)

      whole : (n ≡ 4) × (m ≡ length p) → sent s' ≡ sent s ++ encode p
      whole f =
          sent'
          ∙ ap (◌++◌ (sent s)) (
              ap₂ ◌++◌ (take_all n head (omega (arith, f.0, length-le_bytes 4 (length p))))
                (take_all m p (omega (arith, f.1))))

      short : ok ≡ false → n + m < length p + 4
      short y =
          let test : ((n + m) == (length p + 4)) ≡ false = ap (λ r. r.1) e ∙ y in
          ground (arith, n-le, m-le)

      partial : n + m < length p + 4 → length (sent s') < length (sent s) + 4 + length p
      partial l = omega (
        arith,
        ap length sent',
        length-append (sent s) (take n head ++ take m p),
        length-append (take n head) (take m p),
        length-take n head,
        length-take m p,
      )

  -- `write` of a vector shorter than 2 ^ 31 over a transport returns true exactly when the transport has
  -- been sent the whole frame, behind what it was sent before.
  pub write_lem :
      (s s' : State) (p : List ℕ) (ok : Bool)
      → length p < 2 ^ 31
      → write t (some s) p ≡ (some s', ok)
      → (ok ≡ true) ↔ (sent s' ≡ sent s ++ encode p)
  write_lem s s' p ok h e =
      let cases = write_cases s s' p ok h e in
      let frame = length-append (le_bytes 4 (length p)) p in
      (
        cases.0,
        λ whole. elim (Bool-cases ok) [
          | inl y ↦ y
          | inr n ↦
              let short = cases.1 n in
              absurd (
                omega (
                  arith,
                  ap length whole,
                  length-append (sent s) (encode p),
                  frame,
                  length-le_bytes 4 (length p),
                  short,
                ))
        ],
      )

  -- The successful writes of vectors, one after the other, from the first transport state to the
  -- last one.
  pub data Sends : State → List (List ℕ) → State → Type 0 where
    done : (s : State) → Sends s [] s
    then_write :
        {s s' s'' : State} {p : List ℕ} {ps : List (List ℕ)}
        → length p < 2 ^ 31
        → write t (some s) p ≡ (some s', true)
        → Sends s' ps s''
        → Sends s (p ∷ ps) s''

  sent-Sends :
      {s s' : State} {ps : List (List ℕ)} → Sends s ps s' → sent s' ≡ sent s ++ encode_all ps
  sent-Sends (done s) = sym (append-nil (sent s))
  sent-Sends (then_write {s} {s'} {p = p} {ps = ps} h e rest) =
      sent-Sends rest
      ∙ ap (λ l. l ++ encode_all ps) ((write_lem s s' p true h e).0 refl)
      ∙ append_assoc (sent s) (encode p) (encode_all ps)

  -- Vectors, none of them empty, that one codec writes with success over a fresh transport are exactly what the other
  -- codec hands on, in order, however the transport cuts the bytes into notifications.
  pub feed-Sends :
      {s s' : State} {ps : List (List ℕ)} (chunks : List (List ℕ))
      → All IsFrame ps
      → sent s ≡ []
      → Sends s ps s'
      → flatten chunks ≡ sent s'
      → feed new_codec chunks ≡ (new_codec, ps)
  feed-Sends {ps = ps} chunks a fresh w e =
      feed_frames ps chunks a (e ∙ sent-Sends w ∙ ap (λ l. l ++ encode_all ps) fresh)
