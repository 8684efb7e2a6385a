-- ===== src/Transport/Qt.antt =====
-- qt/socket_bytestream.h and qt/socket_bytestream.cpp: the byte stream over a QTcpSocket. A write goes
-- to a buffer, which a slot empties into the socket later.
pub mod Signals
pub mod Reading
use treeipc.Base.{
  ℕ, ◌-◌, ◌≤◌, ◌^◌, ◌≡◌, sym, ap, ◌∙◌, List, [], ◌∷◌, ◌++◌, length, take, append-nil, append_assoc,
  Option, none, some, if◌then◌else◌, ltb, arith, take_all,
}
use treeipc.Transport.Interface.{Transport}

-- `out` records what the QTcpSocket took, for the statements.
pub record SocketBytestream : Type 0 where
  pub send_buffer : List ℕ
  pub out : List ℕ

unfoldable pub write : SocketBytestream → List ℕ → SocketBytestream × ℕ
write s bytes = (record s { send_buffer = s.send_buffer ++ bytes }, length bytes)

-- `slot_write_ready`: `takes` is how many of the bytes it is given `QTcpSocket::write` takes, which is none
-- where it returns -1. Its result is not looked at. `&send_buffer[0]` of an empty buffer is undefined.
abbrev pub flush : (List ℕ → ℕ) → SocketBytestream → List ℕ → Option SocketBytestream
flush takes s [] = none
flush takes s (b ∷ bytes) =
    some (record s { send_buffer = []; out = s.out ++ take (takes (b ∷ bytes)) (b ∷ bytes) })

unfoldable pub slot_write_ready : (List ℕ → ℕ) → SocketBytestream → Option SocketBytestream
slot_write_ready takes s = flush takes s s.send_buffer

-- `process_available_data`: the result of `socket->read`, of which -1 becomes the largest uint64_t,
-- and the data and size that the listener is notified with.
unfoldable pub process_available_data : Option (List ℕ) → Option (List ℕ × ℕ)
process_available_data none = some ([], 2 ^ 64 - 1)
process_available_data (some bytes) =
    if ltb 0 (length bytes) then some (bytes, length bytes) else none

pub write-le : (s : SocketBytestream) (bytes : List ℕ) → (write s bytes).1 ≤ length bytes
unfolding write
write-le s bytes = omega arith

-- What is accepted stands behind what was accepted before, in the buffer or on its way.
pub sent-write :
    (s : SocketBytestream) (bytes : List ℕ)
    → (write s bytes).0.out ++ (write s bytes).0.send_buffer
      ≡ (s.out ++ s.send_buffer) ++ take (write s bytes).1 bytes
unfolding write
sent-write s bytes =
    sym (append_assoc s.out s.send_buffer bytes)
    ∙ ap (◌++◌ (s.out ++ s.send_buffer)) (sym (take_all (length bytes) bytes (omega arith)))

abbrev pub qt_transport : Transport
qt_transport = record {
  State = SocketBytestream;
  write = write;
  sent = λ s. s.out ++ s.send_buffer;
  write-le = write-le;
  sent-write = sent-write;
}
