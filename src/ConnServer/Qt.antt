-- ===== src/ConnServer/Qt.antt =====
-- qt/acceptor.h and qt/conn_server.h: the same service over a QTcpServer, which is a parameter. The class
-- `package_stream` is declared nowhere: a stream is its address, and the socket that it is made over.
pub mod Serving
mod Tests
use treeipc.Base.{
  ℕ, suc, zero, ◌+◌, ◌≡◌, List, [], ◌∷◌, ◌++◌, Bool, true, false, not, ◌&&◌, Option, none, some,
  ◌==◌, if◌then◌else◌, ◌>>=◌,
}
use treeipc.NodeSync.State.{NodeSync, new_node_sync, set_root}

-- QTcpServer: `listen` and whether it listens then, `nextPendingConnection`, which gives the connections
-- that came in one by one and then a null pointer, and a connection that comes in.
pub record TcpApi : Type 1 where
  pub Server : Type 0
  pub Socket : Type 0
  pub pending : Server → List Socket
  pub listen : Server → Server × Bool
  pub next_pending : Server → Server × Option Socket
  pub incoming : Server → Socket → Server
  pub next_pending-nil : (s : Server) → pending s ≡ [] → (next_pending s).1 ≡ none
  pub next_pending-cons :
      (s : Server) (k : Socket) (ks : List Socket)
      → pending s ≡ k ∷ ks
      → ((next_pending s).1 ≡ some k) × (pending (next_pending s).0 ≡ ks)
  pub pending-listen : (s : Server) → pending (listen s).0 ≡ pending s
  pub pending-incoming : (s : Server) (k : Socket) → pending (incoming s k) ≡ pending s ++ (k ∷ [])

module _ (api : TcpApi) where
  open api use {Server, Socket, listen, next_pending, incoming}

  -- The `acceptor`: `slots` is how often `slot_new_connection` is connected to `newConnection`, and
  -- `streams` has the streams that it made, by their addresses.
  pub record Acceptor : Type 0 where
    pub tcp_server : Server
    pub server_status : Bool
    pub slots : ℕ
    pub streams : List (ℕ × Socket)
    pub fresh : ℕ

  abbrev pub new_acceptor : Server → Acceptor
  new_acceptor t = record {
    tcp_server = t;
    server_status = false;
    slots = 0;
    streams = [];
    fresh = 0;
  }

  unfoldable pub accept : Acceptor → Acceptor
  accept a =
      let (t, ok) = listen a.tcp_server in
      if not ok && not a.server_status
      then record a { tcp_server = t }
      else record a { tcp_server = t; server_status = true; slots = a.slots + 1 }

  -- A stream over a connection that was pending; without one a null pointer is read through.
  abbrev pub make_stream : Acceptor → Server × Option Socket → Option (Acceptor × List ℕ)
  make_stream a (t, none) = none
  make_stream a (t, some k) = some (
    record a { tcp_server = t; streams = a.streams ++ ((a.fresh, k) ∷ []); fresh = a.fresh + 1 },
    a.fresh ∷ [],
  )

  -- `slot_new_connection`: the acceptor, and the streams that its listener is notified of.
  unfoldable pub slot_new_connection : Acceptor → Option (Acceptor × List ℕ)
  slot_new_connection a =
      if a.server_status then make_stream a (next_pending a.tcp_server) else some (a, [])

  -- The `conn_server`: `clients` by the addresses of their streams, and the streams that were started.
  pub record ConnServer : Type 0 where
    pub clients : List (ℕ × NodeSync)
    pub root : Option ℕ
    pub started : List ℕ

  -- `clients[s] = server`
  unfoldable pub put : ℕ → NodeSync → List (ℕ × NodeSync) → List (ℕ × NodeSync)
  put s srv [] = (s, srv) ∷ []
  put s srv ((k, c) ∷ more) = if k == s then (k, srv) ∷ more else (k, c) ∷ put s srv more

  unfoldable pub process_notification : ConnServer → ℕ → Option ConnServer
  process_notification x s = do
    srv ← set_root (new_node_sync true) x.root
    some (record x { clients = put s srv x.clients; started = x.started ++ (s ∷ []) })

  pub record Service : Type 0 where
    pub acceptor : Acceptor
    pub server : ConnServer

  abbrev pub notify_all : ConnServer → List ℕ → Option ConnServer
  notify_all x [] = some x
  notify_all x (s ∷ more) = do x ← process_notification x s; notify_all x more

  abbrev pub after_slot : ConnServer → Acceptor × List ℕ → Option Service
  after_slot x (a, notified) = do
    x ← notify_all x notified
    some (record { acceptor = a; server = x })

  -- `newConnection` runs the slot as often as it is connected.
  unfoldable pub run_slots : ℕ → Service → Option Service
  run_slots zero v = some v
  run_slots (suc n) v = do
    done ← slot_new_connection v.acceptor
    v ← after_slot v.server done
    run_slots n v

  -- A connection comes in.
  unfoldable pub connection : Service → Socket → Option Service
  connection v k =
      let a = v.acceptor in
      run_slots a.slots (record v { acceptor = record a { tcp_server = incoming a.tcp_server k } })

  unfoldable pub connections : Service → List Socket → Option Service
  connections v [] = some v
  connections v (k ∷ ks) = do v ← connection v k; connections v ks
