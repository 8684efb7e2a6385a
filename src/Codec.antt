-- ===== src/Codec.antt =====
-- package_stream.h and package_stream.cpp, class `package_codec`: byte vectors framed by a four byte
-- length over a byte stream. The callback that takes each finished vector is the output list.
pub mod Loop
pub mod Frames
pub mod Stream
pub mod Send
mod Tests
use treeipc.Base.{
  ℕ, zero, suc, ◌+◌, ◌%◌, ◌^◌, List, [], ◌∷◌, ◌++◌, length, take, drop, le_bytes, le_value, leb,
  ltb, ◌==◌, if◌then◌else◌, Bool, true, false, ◌&&◌, ◌||◌, Option, none, some,
}
use treeipc.Transport.{Transport}

pub record Codec : Type 0 where
  pub buffer : List ℕ
  pub pack_size : ℕ

-- The constructor's state.
abbrev pub new_codec : Codec
new_codec = record { buffer = []; pack_size = 0 }

-- The loop's first test: take a length from the buffer when none is pending.
unfoldable pub read_size : Codec → Codec
read_size c =
    if (c.pack_size == 0) && leb 4 (length c.buffer)
    then record { buffer = drop 4 c.buffer; pack_size = le_value (take 4 c.buffer) }
    else c

-- The loop's second test: not enough data yet.
unfoldable pub is_waiting : Codec → Bool
is_waiting c = (c.pack_size == 0) || ltb (length c.buffer) c.pack_size

unfoldable pub consume : Codec → Codec
consume c = record { buffer = drop c.pack_size c.buffer; pack_size = 0 }

-- The loop, on fuel for its rounds: the codec it leaves, and the vectors handed on, in order.
unfoldable pub drain : ℕ → Codec → Codec × List (List ℕ)
drain zero c = (c, [])
drain (suc fuel) c =
    let c' = read_size c in
    let rest = drain fuel (consume c') in
    if is_waiting c' then (c', []) else (rest.0, take c'.pack_size c'.buffer ∷ rest.1)

-- `process_notification(data, size)`. Each round but the last takes four bytes or more.
unfoldable pub process_notification : Codec → List ℕ → Codec × List (List ℕ)
process_notification c chunk =
    let buffer = c.buffer ++ chunk in drain (suc (length buffer)) (record c { buffer = buffer })

-- The stream's notifications in order.
unfoldable pub feed : Codec → List (List ℕ) → Codec × List (List ℕ)
feed c [] = (c, [])
feed c (chunk ∷ chunks) =
    let (c', done) = process_notification c chunk in
    let (c'', more) = feed c' chunks in (c'', done ++ more)

module _ (t : Transport) where
  open t use {State}

  -- `write(p)`, for `p` below 2 GiB: the transport, null until `set_transport`, and the result.
  unfoldable pub write : Option State → List ℕ → Option State × Bool
  write none p = (none, false)
  write (some s) p =
      let (s, head) = t.write s (le_bytes 4 (length p)) in
      let (s, body) = t.write s p in (some s, (head + body) == (length p + 4))
