-- ===== src/Codec/Loop.antt =====
-- The loop of `process_notification`: it ends within its fuel, by its own test.
use treeipc.Base.{
  ℕ, zero, suc, ◌≤◌, ◌<◌, ◌≡◌, length, true, false, Bool-cases, inl, inr, arith, length-drop,
}
use treeipc.Codec.{Codec, read_size, is_waiting, consume, drain}

pub length-read_size : (c : Codec) → length (read_size c).buffer ≤ length c.buffer
unfolding read_size
length-read_size c = ground (arith, length-drop 4 c.buffer)

-- A round that hands a vector on leaves a shorter buffer.
pub consume_shorter :
    (c : Codec) → is_waiting c ≡ false → length (consume c).buffer < length c.buffer
unfolding is_waiting consume
consume_shorter c h = ground (arith, length-drop c.pack_size c.buffer)

-- On fuel above the length of the buffer the loop stops by its own test: it waits for data.
pub drain_waits :
    (fuel : ℕ) (c : Codec) → length c.buffer < fuel → is_waiting (drain fuel c).0 ≡ true
unfolding drain
drain_waits zero c h = elim h [ ]
drain_waits (suc fuel) c h = elim (Bool-cases (is_waiting (read_size c))) [
  | inl stop ↦ rw stop stop
  | inr more ↦ rw more (
      drain_waits fuel (consume (read_size c))
        (omega (arith, consume_shorter (read_size c) more, length-read_size c)))
]

-- More fuel changes nothing.
pub drain_fuel :
    (k l : ℕ) (c : Codec) → length c.buffer < k → length c.buffer < l → drain k c ≡ drain l c
unfolding drain
drain_fuel zero l c hk hl = elim hk [ ]
drain_fuel (suc k) zero c hk hl = elim hl [ ]
drain_fuel (suc k) (suc l) c hk hl = elim (Bool-cases (is_waiting (read_size c))) [
  | inl stop ↦ rw stop
  | inr more ↦ rw (
    more,
    drain_fuel k l (consume (read_size c))
        (omega (arith, consume_shorter (read_size c) more, length-read_size c))
        (omega (arith, consume_shorter (read_size c) more, length-read_size c)),
  )
]
