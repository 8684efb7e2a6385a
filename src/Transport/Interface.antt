-- ===== src/Transport/Interface.antt =====
-- reliable_bytestream_base.h: what the codec asks of a byte stream.
use treeipc.Base.{ℕ, ◌≤◌, ◌≡◌, List, ◌++◌, length, take}

-- `write` returns the number of bytes taken, which are the first ones. `sent` is all that has gone
-- towards the peer.
pub record Transport : Type 1 where
  pub State : Type 0
  pub write : State → List ℕ → State × ℕ
  pub sent : State → List ℕ
  pub write-le : (s : State) (bytes : List ℕ) → (write s bytes).1 ≤ length bytes
  pub sent-write :
      (s : State) (bytes : List ℕ) → sent (write s bytes).0 ≡ sent s ++ take (write s bytes).1 bytes
