-- ===== src/Dispatcher.antt =====
-- package_stream.h and package_stream.cpp, class `request_reply_dispatcher`: requests and replies over
-- the codec, matched by a sixteen bit message id whose highest bit marks a reply.
pub mod RoundTrip
pub mod Senders
pub mod Faults
mod Tests
use treeipc.Base.{
  ℕ, ◌+◌, ◌/◌, ◌%◌, ◌^◌, List, [], ◌∷◌, ◌++◌, length, drop, take, le_bytes, le_value, ltb, ◌==◌,
  if◌then◌else◌, Bool, true, false, Option, none, some, ◌>>=◌,
}
use treeipc.Package.{Package, empty, copy, assign}
use treeipc.Transport.{Transport}
use treeipc.Codec

-- `response_received` and `request_msgids` are std::maps; a package that was notified is known by its
-- address. The head of `msgid_released` is the vector's back.
pub record Dispatcher : Type 0 where
  pub reply_in : Package
  pub msgid : ℕ
  pub response_received : ℕ → Bool
  pub request_msgids : List (ℕ × ℕ)
  pub msgid_released : List ℕ

abbrev pub set_flag : (ℕ → Bool) → ℕ → Bool → ℕ → Bool
set_flag flags id b i = if i == id then b else flags i

abbrev pub find : ℕ → List (ℕ × ℕ) → Option ℕ
find k [] = none
find k ((j, v) ∷ m) = if j == k then some v else find k m

abbrev pub erase : ℕ → List (ℕ × ℕ) → List (ℕ × ℕ)
erase k [] = []
erase k ((j, v) ∷ m) = if j == k then erase k m else (j, v) ∷ erase k m

-- `msgid & reply_flag`, `msgid & ~reply_flag` and `msgid | reply_flag`, for the flag 2 ^ 15.
abbrev pub has_reply_flag : ℕ → Bool
has_reply_flag id = (id / 2 ^ 15) % 2 == 1

abbrev pub without_reply_flag : ℕ → ℕ
without_reply_flag id = id % 2 ^ 15

abbrev pub with_reply_flag : ℕ → ℕ
with_reply_flag id = id % 2 ^ 15 + 2 ^ 15

-- The id that a released one, or the counter, gives.
abbrev pub next_msgid : Dispatcher → List ℕ → Dispatcher × ℕ
next_msgid d [] = (record d { msgid = (d.msgid + 1) % 2 ^ 16 }, d.msgid)
next_msgid d (id ∷ released) = (record d { msgid_released = released }, id)

unfoldable pub generate_msgid : Dispatcher → Dispatcher × ℕ
generate_msgid d = next_msgid d d.msgid_released

unfoldable pub release_msgid : Dispatcher → ℕ → Dispatcher
release_msgid d id = record d { msgid_released = id ∷ d.msgid_released }

-- The constructor, which gives the id 0 away.
unfoldable pub new_dispatcher : Dispatcher
new_dispatcher =
    (generate_msgid (record {
      reply_in = empty;
      msgid = 0;
      response_received = λ _. false;
      request_msgids = [];
      msgid_released = [];
    })).0

-- The vector that `write(p, msgid)` gives to the codec.
abbrev pub frame : ℕ → Package → List ℕ
frame id p = le_bytes 2 id ++ p

module _ (t : Transport) where
  open t use {State}

  -- `write(p, msgid)`, and `write(p)`, which is that with the id 0.
  unfoldable pub write : Option State → Package → ℕ → Option State × Bool
  write s p id = Codec.write t s (frame id p)

  unfoldable pub write_notice : Option State → Package → Option State × Bool
  write_notice s p = write s p 0

  -- `send` up to its wait, under `senders_mutex`: the id to wait for, or none where the write failed
  -- and `send` returns false. The request is a parameter by value.
  unfoldable pub send_begin :
      Option State → Dispatcher → Package → Option (Option State × Dispatcher × Option ℕ)
  send_begin s d req = do
    req ← copy req
    let (d, id) = generate_msgid d
    let d = record d { response_received = set_flag d.response_received id false }
    let (s, ok) = write s req id
    some (if ok then (s, d, some id) else (s, release_msgid d id, none))

  -- `reply` to the request at address `req`, once its id is looked up.
  abbrev reply_to :
      Option State → Dispatcher → ℕ → Package → Option ℕ → Option State × Dispatcher × Bool
  reply_to s d req rep none = (s, d, false)
  reply_to s d req rep (some id) =
      let (s, ok) = write s rep (with_reply_flag id) in
      (s, record d { request_msgids = erase req d.request_msgids }, ok)

  -- `reply`: false where the request is not known, or not any more. A known one is forgotten (and its
  -- package deleted), whether the write succeeds or not.
  unfoldable pub reply : Option State → Dispatcher → ℕ → Package → Option State × Dispatcher × Bool
  reply s d req rep = reply_to s d req rep (find req d.request_msgids)

-- The rest of `send`, under `senders_mutex` again, once the flag of its id is set: the response that
-- the caller's package holds then.
unfoldable pub send_finish : Dispatcher → ℕ → Package → Option (Dispatcher × Package)
send_finish d id resp = do let d = release_msgid d id; resp ← assign resp d.reply_in; some (d, resp)

-- What `process_notification` does beside its changes of the state.
pub data Event : Type 0 where
  answered : ℕ → Event
  notified : ℕ → Package → Event

-- A reply: `in` takes it, and the one who waits for the id is woken.
abbrev answer : Dispatcher → Package → ℕ → Option (Dispatcher × Event)
answer d res id = do
  taken ← assign d.reply_in res
  let flags = set_flag d.response_received id true
  some (record d { reply_in = taken; response_received = flags }, answered id)

-- A request: its id is kept under the address of its package.
abbrev enqueue : Dispatcher → ℕ → Package → ℕ → Dispatcher × Event
enqueue d address res id = (
  record d { request_msgids = (address, id) ∷ erase address d.request_msgids },
  notified address res,
)

abbrev dispatch : Dispatcher → ℕ → Package → ℕ → Bool → Option (Dispatcher × Event)
dispatch d address res id is_reply =
    if id == 0
    then some (d, notified address res)
    else if is_reply
    then answer d res id
    else some (enqueue d address res id)

-- `process_notification(p)`, for a vector from the codec; `address` is that of the new package. The
-- id is copied before the size is tested, so a vector of less than two bytes is read past its end.
unfoldable pub process_notification : Dispatcher → ℕ → List ℕ → Option (Dispatcher × Event)
process_notification d address p =
    let id = le_value (take 2 p) in
    if ltb (length p) 2
    then none
    else dispatch d address (drop 2 p) (without_reply_flag id) (has_reply_flag id)
