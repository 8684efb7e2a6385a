-- ===== src/ConnServer.antt =====
-- acceptor.h, conn_server.h and object_status.h: each connection that is accepted gets a server of the one
-- tree. `sockets` of boost are numbered by their addresses, and their calls are the parameter of Socket.
pub mod Serving
pub mod Qt
mod Tests
use treeipc.Base.{
  ℕ, ◌+◌, List, [], ◌∷◌, ◌++◌, Bool, true, false, Option, none, some, ◌==◌, if◌then◌else◌, ◌>>=◌,
}
use treeipc.Transport.Socket.{SocketApi, SocketClient, Effect, set_socket}
use treeipc.Codec.{Codec, new_codec}
use treeipc.Dispatcher.{Dispatcher, new_dispatcher}
use treeipc.NodeSync.State.{NodeSync, new_node_sync, set_root}

-- The `acceptor`: `ok` of its `object_status`, the sockets of the `async_accept`s that have not called
-- their handler yet, in order, and the address of the next socket.
pub record Acceptor : Type 0 where
  pub status : Bool
  pub pending : List ℕ
  pub fresh : ℕ

abbrev pub new_acceptor : Acceptor
new_acceptor = record { status = true; pending = []; fresh = 0 }

unfoldable pub accept : Acceptor → Acceptor
accept a = record a { pending = a.pending ++ (a.fresh ∷ []); fresh = a.fresh + 1 }

-- `connect_handler` of a socket: the acceptor, and the sockets that its listener is notified of. The
-- error that boost reports is not looked at.
unfoldable pub connect_handler : Acceptor → ℕ → Acceptor × List ℕ
connect_handler a s = if a.status then (accept a, s ∷ []) else (a, [])

-- The end of the destructor.
unfoldable pub close : Acceptor → Acceptor
close a = record a { status = false }

module _ (api : SocketApi) (socket_at : ℕ → SocketApi.Socket api) where
  open api use {Socket}

  -- `conn_server::client`
  pub record Client : Type 0 where
    pub sc : SocketClient api
    pub codec : Codec
    pub sd : Dispatcher
    pub srv : NodeSync

  abbrev pub new_socket_client : SocketClient api
  new_socket_client = record {
    socket = none;
    is_connected = false;
    has_connector = false;
    out = [];
  }

  -- Its constructor, with what `set_socket` asks for.
  unfoldable pub new_client : ℕ → Option ℕ → Option (Client × List (Effect Socket))
  new_client s root = do
    srv ← set_root (new_node_sync true) root
    let (sc, effects) = set_socket api new_socket_client (socket_at s)
    some (record { sc = sc; codec = new_codec; sd = new_dispatcher; srv = srv }, effects)

  -- The `conn_server`: `clients` by the addresses of their sockets.
  pub record ConnServer : Type 0 where
    pub clients : List (ℕ × Client)
    pub root : Option ℕ

  abbrev pub new_conn_server : Option ℕ → ConnServer
  new_conn_server root = record { clients = []; root = root }

  -- `clients[s] = cl`
  unfoldable pub put : ℕ → Client → List (ℕ × Client) → List (ℕ × Client)
  put s cl [] = (s, cl) ∷ []
  put s cl ((k, c) ∷ more) = if k == s then (k, cl) ∷ more else (k, c) ∷ put s cl more

  -- `conn_server::process_notification`
  unfoldable pub process_notification : ConnServer → ℕ → Option (ConnServer × List (Effect Socket))
  process_notification x s = do
    (cl, effects) ← new_client s x.root
    some (record x { clients = put s cl x.clients }, effects)

  -- The acceptor with the `conn_server` that listens to it.
  pub record Service : Type 0 where
    pub acceptor : Acceptor
    pub server : ConnServer

  abbrev pub notify_all : ConnServer → List ℕ → Option ConnServer
  notify_all x [] = some x
  notify_all x (s ∷ more) = do (x, effects) ← process_notification x s; notify_all x more

  abbrev pub after_handler : ConnServer → Acceptor × List ℕ → Option Service
  after_handler x (a, notified) = do
    x ← notify_all x notified
    some (record { acceptor = a; server = x })

  abbrev pub complete_first : Acceptor → ConnServer → List ℕ → Option Service
  complete_first a x [] = some (record { acceptor = a; server = x })
  complete_first a x (s ∷ pending) =
      after_handler x (connect_handler (record a { pending = pending }) s)

  -- Boost calls the handler of the first `async_accept` that is pending, if one is.
  unfoldable pub complete : Service → Option Service
  complete v = complete_first v.acceptor v.server v.acceptor.pending

  -- `main`, up to the first `accept`: the acceptor with the `conn_server` of the root.
  abbrev pub main : ℕ → Service
  main root = record { acceptor = accept new_acceptor; server = new_conn_server (some root) }
