-- ===== src/Transport/Qt/Signals.antt =====
-- qt/socket_bytestream.cpp: what its signals and slots make of the bytes, in both directions. A signal that
-- is emitted on another thread runs its slot later, on the thread of the object.
use treeipc.Base.{
  ℕ, zero, suc, ◌+◌, ◌≡◌, refl, sym, subst, ap, ◌∙◌, List, [], ◌∷◌, ◌++◌, length, take, take_all,
  true, Option, none, some, ◌>>=◌, ◌⊎◌, inl, inr, ltb, lt→ltb, arith, append_assoc, append-nil,
}
use treeipc.Transport.Qt
use treeipc.Transport.Qt.{SocketBytestream, slot_write_ready, flush}

-- The stream and the `signal_write_ready`s whose slot has not run.
pub record Wired : Type 0 where
  pub stream : SocketBytestream
  pub waiting : ℕ

-- The constructor.
abbrev pub new_stream : Wired
new_stream = record { stream = record { send_buffer = []; out = [] }; waiting = 0 }

-- `write`, with the signal that it emits.
unfoldable pub write : Wired → List ℕ → Wired
write w bytes = record { stream = (Qt.write w.stream bytes).0; waiting = w.waiting + 1 }

module _ (takes : List ℕ → ℕ) where
  abbrev pub left_with : ℕ → Option SocketBytestream → Option Wired
  left_with left none = none
  left_with left (some s) = some (record { stream = s; waiting = left })

  abbrev pub run_first : Wired → ℕ → Option Wired
  run_first w zero = some w
  run_first w (suc left) = left_with left (slot_write_ready takes w.stream)

  -- One of the slots runs, if the signal of one has been emitted; `none` where that is undefined.
  unfoldable pub run_slot : Wired → Option Wired
  run_slot w = run_first w w.waiting

  -- From the constructor on, the bytes given are written, while slots run at any time.
  pub data Run : List ℕ → Wired → Type 0 where
    start : Run [] new_stream
    wrote :
        {ws : List ℕ} {b : Wired} (bytes : List ℕ) → Run ws b → Run (ws ++ bytes) (write b bytes)
    ran : {ws : List ℕ} {b b' : Wired} → run_slot b ≡ some b' → Run ws b → Run ws b'

  -- All that was written is at the socket or in the buffer, in order, and nothing is in the buffer without
  -- a slot that is about to run.
  pub record IsFlowing (ws : List ℕ) (b : Wired) : Type 0 where
    pub in_order : b.stream.out ++ b.stream.send_buffer ≡ ws
    pub flushed : (ltb 0 b.waiting ≡ true) ⊎ (b.stream.send_buffer ≡ [])

  abbrev FlowingIfAny : List ℕ → Option Wired → Type 0
  FlowingIfAny ws none = Unit
  FlowingIfAny ws (some b) = IsFlowing ws b

  module _ (all_taken : (bytes : List ℕ) → takes bytes ≡ length bytes) where
    run_slot-IsFlowing :
        (ws out buffer : List ℕ) (waiting : ℕ)
        → let b : Wired = record {
          stream = record { send_buffer = buffer; out = out };
          waiting = waiting;
        } in
          IsFlowing ws b → FlowingIfAny ws (run_slot b)
    unfolding run_slot slot_write_ready
    run_slot-IsFlowing ws out buffer zero h = h
    run_slot-IsFlowing ws out [] (suc left) h = tt
    run_slot-IsFlowing ws out (x ∷ buffer) (suc left) h = record {
      in_order =
          append-nil (out ++ take (takes (x ∷ buffer)) (x ∷ buffer))
          ∙ ap (λ k. out ++ take k (x ∷ buffer)) (all_taken (x ∷ buffer))
          ∙ ap (◌++◌ out) (take_all (length (x ∷ buffer)) (x ∷ buffer) (omega arith))
          ∙ h.in_order;
      flushed = inr refl;
    }

    pub Run-IsFlowing : {ws : List ℕ} {b : Wired} → Run ws b → IsFlowing ws b
    unfolding write Qt.write
    Run-IsFlowing start = record { in_order = refl; flushed = inr refl }
    Run-IsFlowing (wrote {ws = ws} {b = b} bytes r) = record {
      in_order =
          sym (append_assoc b.stream.out b.stream.send_buffer bytes)
          ∙ ap (λ x. x ++ bytes) (Run-IsFlowing r).in_order;
      flushed = inl (lt→ltb 0 (b.waiting + 1) (omega arith));
    }
    Run-IsFlowing (ran {ws = ws} {b = b} e r) =
        subst (FlowingIfAny ws) e
          (run_slot-IsFlowing ws b.stream.out b.stream.send_buffer b.waiting (Run-IsFlowing r))

    -- What the next slot does.
    pub data Next (ws : List ℕ) (b : Wired) : Type 0 where
      all_there : b.waiting ≡ 0 → b.stream.out ≡ ws → Next ws b
      empties : (b' : Wired) → run_slot b ≡ some b' → b'.stream.out ≡ ws → Next ws b
      reads_nothing :
          ltb 0 b.waiting ≡ true
          → b.stream.send_buffer ≡ []
          → run_slot b ≡ none
          → b.stream.out ≡ ws
          → Next ws b

    next_of :
        (ws out buffer : List ℕ) (waiting : ℕ)
        → let b : Wired = record {
          stream = record { send_buffer = buffer; out = out };
          waiting = waiting;
        } in
          IsFlowing ws b → Next ws b
    unfolding run_slot slot_write_ready
    next_of ws out [] zero h = all_there refl (sym (append-nil out) ∙ h.in_order)
    next_of ws out (x ∷ buffer) zero h = absurd (elim h.flushed [ inl e ↦ cc | inr e ↦ cc ])
    next_of ws out [] (suc left) h =
        reads_nothing (lt→ltb 0 (suc left) (omega arith)) refl refl
          (sym (append-nil out) ∙ h.in_order)
    next_of ws out (x ∷ buffer) (suc left) h = empties _ refl (
        ap (λ k. out ++ take k (x ∷ buffer)) (all_taken (x ∷ buffer))
        ∙ ap (◌++◌ out) (take_all (length (x ∷ buffer)) (x ∷ buffer) (omega arith))
        ∙ h.in_order)

    -- Over a QTcpSocket that takes all that it is given, however writes and slots interleave: what the
    -- socket has and what is in the buffer are together what was written, in order; and either no
    -- slot is left to run and the socket has all of it, or the next slot empties the buffer and the socket
    -- has all of it then, or the socket has all of it already and the next slot reads an empty buffer.
    pub Run-Next :
        {ws : List ℕ} {b : Wired}
        → Run ws b
        → (b.stream.out ++ b.stream.send_buffer ≡ ws) × Next ws b
    Run-Next {ws = ws} {b = b} r =
        let h = Run-IsFlowing r in
        (h.in_order, next_of ws b.stream.out b.stream.send_buffer b.waiting h)

  twice :
      (left : ℕ) (s : SocketBytestream) (bytes : List ℕ)
      → (left_with (suc left) (flush takes s bytes) >>= run_slot) ≡ none
  unfolding run_slot slot_write_ready
  twice left s [] = refl
  twice left s (x ∷ bytes) = refl

  -- Whatever the socket takes: where two writes have come before a slot has run, the first slot or the
  -- second reads an empty buffer.
  pub run_slot-write-write :
      (b : Wired) (first second : List ℕ)
      → (run_slot (write (write b first) second) >>= run_slot) ≡ none
  unfolding write run_slot slot_write_ready
  run_slot-write-write b first second =
      let both = write (write b first) second in
      let two : both.waiting ≡ suc (suc b.waiting) = omega arith in
      ap (λ n. run_first both n >>= run_slot) two
      ∙ twice b.waiting both.stream both.stream.send_buffer
