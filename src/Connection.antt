-- ===== src/Connection.antt =====
-- The parts of one side put together: the bytes of the stream go through `package_codec` and
-- `request_reply_dispatcher` to the `node_sync` that listens, as package_stream.cpp and node_sync.cpp
-- chain their `process_notification`s.
pub mod Delivery
pub mod Request
pub mod Fetch
pub mod Change
pub mod Closing
mod Tests
use treeipc.Base.{ℕ, ◌+◌, List, [], ◌∷◌, Option, none, some, Bool, ◌>>=◌}
use treeipc.Package.{Package}
use treeipc.Transport.{Transport}
use treeipc.Queue.{push}
use treeipc.Codec
use treeipc.Codec.{Codec}
use treeipc.Dispatcher
use treeipc.Dispatcher.{Dispatcher, Event, answered, notified, reply}
use treeipc.NodeSync.State.{NodeSync}
use treeipc.NodeSync.Notify
use treeipc.NodeSync.Notify.{Action, ignored, replied, queued}

module _ (t : Transport) where
  open t use {State}

  -- All behind the codec: the transport that replies go to, the dispatcher, the `node_sync` with its
  -- queue (a package with its address), and the address of the next package.
  pub record Receiver : Type 0 where
    pub out : Option State
    pub dispatcher : Dispatcher
    pub node : NodeSync
    pub queue : List (ℕ × Package)
    pub fresh : ℕ

  -- What `node_sync::process_notification` made of the package at an address.
  abbrev pub act : Receiver → ℕ → NodeSync × Action → Receiver
  act r address (s, ignored) = record r { node = s }
  act r address (s, queued p) = record r { node = s; queue = push r.queue (address, p) }
  act r address (s, replied rep) =
      let (out, d, ok) = reply t r.out r.dispatcher address rep in
      record r { node = s; out = out; dispatcher = d }

  -- `rep` is for a client that has to ask for an id.
  abbrev pub on_event : Package → Receiver → Event → Option Receiver
  on_event rep r (answered id) = some r
  on_event rep r (notified address p) = do
    done ← Notify.process_notification r.node rep (some p)
    some (act r address done)

  unfoldable pub on_vector : Package → Receiver → List ℕ → Option Receiver
  on_vector rep r v = do
    (d, event) ← Dispatcher.process_notification r.dispatcher r.fresh v
    on_event rep (record r { dispatcher = d; fresh = r.fresh + 1 }) event

  unfoldable pub on_vectors : Package → Receiver → List (List ℕ) → Option Receiver
  on_vectors rep r [] = some r
  on_vectors rep r (v ∷ vs) = do r ← on_vector rep r v; on_vectors rep r vs

  -- The notifications of the byte stream, one after the other.
  unfoldable pub on_stream : Package → Codec → Receiver → List (List ℕ) → Option (Codec × Receiver)
  on_stream rep k r [] = some (k, r)
  on_stream rep k r (chunk ∷ chunks) = do
    let (k, vs) = Codec.process_notification k chunk
    r ← on_vectors rep r vs
    on_stream rep k r chunks
