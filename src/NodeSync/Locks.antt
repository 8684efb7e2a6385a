-- ===== src/NodeSync/Locks.antt =====
-- `tracked_mutex` while a request is under way. `fetch_node` and `update_prop` hold it until the reply has
-- come, `ls` does not; the processing thread of the other side takes its own one in `get_node`, and again
-- in `get_nid`, before it replies.
pub mod Waiting
use treeipc.Base.{ℕ, ◌+◌, ◌≡◌, Bool, true, false, if◌then◌else◌}

-- The thread that calls, by whether it holds the mutex: out of any call, in the wait of `send`, and with
-- its reply.
pub data Caller : Type 0 where
  resting : Caller
  waits woken : Bool → Caller

abbrev pub holds : Caller → Bool
holds resting = false
holds (waits locked) = locked
holds (woken locked) = locked

-- What the arrival of the reply does to the one who waits.
abbrev pub wake : Caller → Caller
wake resting = resting
wake (waits locked) = woken locked
wake (woken locked) = woken locked

-- The processing thread: in `pop`, before `get_node`, and before `get_nid`.
pub data Worker : Type 0 where
  idle looking naming : Worker

-- One side, and whether a request stands in its queue.
pub record Side : Type 0 where
  pub caller : Caller
  pub worker : Worker
  pub inbox : Bool

abbrev pub new_side : Side
new_side = record { caller = resting; worker = idle; inbox = false }

-- One side moves, beside the other one.
pub data Turn (mine theirs : Side) : Side → Side → Type 0 where
  -- `send`, after the mutex is taken or not; the processing thread holds it inside of a move only.
  call :
      (locked : Bool)
      → mine.caller ≡ resting
      → Turn mine theirs (record mine { caller = waits locked }) (record theirs { inbox = true })
  take :
      mine.worker ≡ idle
      → mine.inbox ≡ true
      → Turn mine theirs (record mine { worker = looking; inbox = false }) theirs
  -- `get_node` finds the node; without one, `cmd_at` replies at once.
  look :
      mine.worker ≡ looking
      → holds mine.caller ≡ false
      → Turn mine theirs (record mine { worker = naming }) theirs
  refuse :
      mine.worker ≡ looking
      → holds mine.caller ≡ false
      → Turn mine theirs
          (record mine { worker = idle })
          (record theirs { caller = wake theirs.caller })
  -- `get_nid`, and the reply.
  name :
      mine.worker ≡ naming
      → holds mine.caller ≡ false
      → Turn mine theirs
          (record mine { worker = idle })
          (record theirs { caller = wake theirs.caller })
  back :
      (locked : Bool)
      → mine.caller ≡ woken locked
      → Turn mine theirs (record mine { caller = resting }) theirs

pub data Step (a b : Side) : Side → Side → Type 0 where
  first : {a' b' : Side} → Turn a b a' b' → Step a b a' b'
  second : {a' b' : Side} → Turn b a b' a' → Step a b a' b'

pub data Steps (a b : Side) : Side → Side → Type 0 where
  here : Steps a b a b
  after : {a' b' a'' b'' : Side} → Steps a b a' b' → Step a' b' a'' b'' → Steps a b a'' b''

abbrev pub Reach : Side → Side → Type 0
Reach a b = Steps new_side new_side a b
