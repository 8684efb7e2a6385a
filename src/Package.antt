-- ===== src/Package.antt =====
-- package_stream_base.h, class `package`: a byte vector that begins with an eight byte node id and
-- a one byte command. `nid` and `cmd` always point at the vector's beginning (`reset_header`), so
-- the vector is the whole state.
pub mod Commands
pub mod Layout
pub mod Read
pub mod Copy
pub mod Text
mod Tests
use treeipc.Base.{
  ℕ, ◌+◌, ◌-◌, ◌%◌, ◌^◌, List, [], length, take, drop, resize, overwrite, le_bytes, le_value, leb,
  ltb, if◌then◌else◌, Option, none, some, ◌>>=◌,
}

abbrev pub Package : Type 0
Package = List ℕ

-- `(uint8_t *)(cmd + 1) - (uint8_t *)nid`
abbrev pub header_size : ℕ
header_size = 9

-- `size_t` arithmetic
abbrev pub add_size : ℕ → ℕ → ℕ
add_size a b = (a + b) % 2 ^ 64

abbrev pub sub_size : ℕ → ℕ → ℕ
sub_size a b = (a + 2 ^ 64 - b) % 2 ^ 64

unfoldable pub extend_by : ℕ → Package → Package
extend_by amount p = resize (length p + amount) 0 p

unfoldable pub init : Package → Package
init p = extend_by 1 (extend_by 8 p)

-- The default constructor.
unfoldable pub empty : Package
empty = init []

unfoldable pub set_nid : ℕ → Package → Package
set_nid n p = overwrite 0 (le_bytes 8 n) p

unfoldable pub set_cmd : ℕ → Package → Package
set_cmd c p = overwrite 8 (le_bytes 1 c) p

-- `*nid` and `*cmd`, which a vector shorter than the header does not hold.
unfoldable pub get_nid : Package → Option ℕ
get_nid p = if leb 8 (length p) then some (le_value (take 8 p)) else none

unfoldable pub get_cmd : Package → Option ℕ
get_cmd p = if leb 9 (length p) then some (le_value (take 1 (drop 8 p))) else none

-- The copy constructor: the vector's copy, to which `init` adds a second header's bytes.
unfoldable pub copy : Package → Option Package
copy p = do cmd ← get_cmd p; let q = set_cmd cmd (init p); nid ← get_nid p; some (set_nid nid q)

-- `operator =` takes its operand by value, so through the copy constructor.
unfoldable pub assign : Package → Package → Option Package
assign this operand = do
  op ← copy operand
  let this = overwrite 0 op (resize (length op) 0 this)
  nid ← get_nid op
  let this = set_nid nid this
  cmd ← get_cmd op
  some (set_cmd cmd this)

unfoldable pub get_resp : Package → Option Package
get_resp p = do
  cmd ← get_cmd p
  let resp = set_cmd cmd empty
  nid ← get_nid p
  some (set_nid nid resp)

-- `append(const void *, int)`, for data whose size an `int` holds.
unfoldable pub append : Package → List ℕ → Package
append p src = overwrite (length p) src (extend_by (length src) p)

-- `append<type>` of an unsigned integer of `w` bytes.
unfoldable pub append_word : ℕ → Package → ℕ → Package
append_word w p v = append p (le_bytes w v)

-- `read(pos, dest, sz)`: `false`, or the bytes that reach `dest`, or a `memcpy` from outside the
-- vector, which the test lets through where `pos + sz` wraps.
pub data ReadResult : Type 0 where
  refused : ReadResult
  copied : List ℕ → ReadResult
  outside : ReadResult

unfoldable pub read : Package → ℕ → ℕ → ReadResult
read p pos sz =
    let at = add_size pos header_size in
    if ltb (length p) (add_size at sz)
    then refused
    else if leb (at + sz) (length p)
    then copied (take sz (drop at p))
    else outside

abbrev pub value_or_zero : ReadResult → Option ℕ
value_or_zero refused = some 0
value_or_zero (copied bs) = some (le_value bs)
value_or_zero outside = none

-- `read<type>` of an unsigned integer of `w` bytes: `type()` where `read` refuses.
unfoldable pub read_word : ℕ → Package → ℕ → Option ℕ
read_word w p pos = value_or_zero (read p pos w)

unfoldable pub data_size : Package → ℕ
data_size p = sub_size (length p) header_size
