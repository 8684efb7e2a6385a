-- ===== src/Transport/Socket.antt =====
-- socket_client.h and socket_client.cpp: `socket_client`, the byte stream over a boost TCP socket,
-- and `connector`, which opens sockets for it. The socket's own calls are parameters; what a handler
-- asks of boost and of its listeners is its list of effects, in order.
use treeipc.Base.{
  ℕ, ◌≤◌, ◌≡◌, refl, sym, List, [], ◌∷◌, ◌++◌, length, take, append-nil, Bool, true, false, Option,
  none, some, if◌then◌else◌, arith,
}
use treeipc.Transport.Interface.{Transport}

-- A socket's `write_some`: the number of bytes taken, or an error.
pub record SocketApi : Type 1 where
  pub Socket : Type 0
  pub write_some : Socket → List ℕ → Socket × Option ℕ
  pub write_some-le :
      (k : Socket) (bytes : List ℕ) (n : ℕ) → (write_some k bytes).1 ≡ some n → n ≤ length bytes

-- What the handlers ask for: a receive or a connection to be started, a timer of a second, and the
-- calls of the listener.
pub data Effect (Socket : Type 0) : Type 0 where
  async_receive async_connect set_timer : Effect Socket
  notify_opened notify_closed : Effect Socket
  notify_data : List ℕ → Effect Socket
  notify_socket : Socket → Effect Socket

module _ (api : SocketApi) where
  open api use {Socket, write_some}

  -- `out` records what the sockets took, for the statements.
  pub record SocketClient : Type 0 where
    pub socket : Option Socket
    pub is_connected : Bool
    pub has_connector : Bool
    pub out : List ℕ

  unfoldable pub set_socket : SocketClient → Socket → SocketClient × List (Effect Socket)
  set_socket c k =
      (record c { socket = some k; is_connected = true }, notify_opened ∷ async_receive ∷ [])

  -- `data_ready`: an error, or the bytes received.
  unfoldable pub data_ready : SocketClient → Option (List ℕ) → SocketClient × List (Effect Socket)
  data_ready c none = (
    record c { is_connected = false },
    notify_closed ∷ (if c.has_connector then set_timer ∷ [] else []),
  )
  data_ready c (some bytes) = (c, notify_data bytes ∷ async_receive ∷ [])

  abbrev took : SocketClient → List ℕ → Socket × Option ℕ → SocketClient × ℕ
  took c bytes (k, none) = (record c { socket = some k; is_connected = false }, 0)
  took c bytes (k, some n) = (record c { socket = some k; out = c.out ++ take n bytes }, n)

  -- The write on the socket that a connected client holds: `is_connected` is set with the socket
  -- and no handler takes the socket away, so `none` does not occur there.
  abbrev write_on : SocketClient → List ℕ → Option Socket → SocketClient × ℕ
  write_on c bytes none = (c, 0)
  write_on c bytes (some k) = took c bytes (write_some k bytes)

  unfoldable pub write : SocketClient → List ℕ → SocketClient × ℕ
  write c bytes = if c.is_connected then write_on c bytes c.socket else (c, 0)

  took-sent :
      (c : SocketClient) (bytes : List ℕ) (r : Socket × Option ℕ)
      → (took c bytes r).0.out ≡ c.out ++ take (took c bytes r).1 bytes
  took-sent c bytes (k, none) = sym (append-nil c.out)
  took-sent c bytes (k, some n) = refl

  took-le :
      (c : SocketClient) (bytes : List ℕ) (r : Socket × Option ℕ)
      → ((n : ℕ) → r.1 ≡ some n → n ≤ length bytes)
      → (took c bytes r).1 ≤ length bytes
  took-le c bytes (k, none) h = omega arith
  took-le c bytes (k, some n) h = h n refl

  write_on-sent :
      (c : SocketClient) (bytes : List ℕ) (o : Option Socket)
      → (write_on c bytes o).0.out ≡ c.out ++ take (write_on c bytes o).1 bytes
  write_on-sent c bytes none = sym (append-nil c.out)
  write_on-sent c bytes (some k) = took-sent c bytes (write_some k bytes)

  write_on-le :
      (c : SocketClient) (bytes : List ℕ) (o : Option Socket)
      → (write_on c bytes o).1 ≤ length bytes
  write_on-le c bytes none = omega arith
  write_on-le c bytes (some k) =
      took-le c bytes (write_some k bytes) (λ n e. api.write_some-le k bytes n e)

  -- `write` reports the number of bytes that the socket took, which are the first ones.
  pub write-sent :
      (c : SocketClient) (bytes : List ℕ)
      → ((write c bytes).1 ≤ length bytes)
        × ((write c bytes).0.out ≡ c.out ++ take (write c bytes).1 bytes)
  unfolding write
  write-sent c bytes =
      ground (arith, write_on-le c bytes c.socket, write_on-sent c bytes c.socket, append-nil c.out)

  abbrev pub socket_transport : Transport
  socket_transport = record {
    State = SocketClient;
    write = write;
    sent = λ c. c.out;
    write-le = λ c bytes. (write-sent c bytes).0;
    sent-write = λ c bytes. (write-sent c bytes).1;
  }

  -- After a failed receive nothing is sent, and every write returns 0, until a socket is set again:
  -- then the client is connected, tells its listener and receives.
  pub data_ready_fails :
      (c : SocketClient) (bytes : List ℕ)
      → let c' = (data_ready c none).0 in
        (write c' bytes ≡ (c', 0))
        × ((k : Socket)
            → ((set_socket c' k).0.is_connected ≡ true)
              × ((set_socket c' k).0.out ≡ c.out)
              × ((set_socket c' k).1 ≡ notify_opened ∷ async_receive ∷ []))
  unfolding data_ready write set_socket
  data_ready_fails c bytes = (refl, λ k. (refl, refl, refl))

  -- `connector`: its flag, and its handlers.
  pub record Connector : Type 0 where
    pub do_reconnect : Bool

  unfoldable pub connect : List (Effect Socket)
  connect = async_connect ∷ []

  unfoldable pub reconnect : List (Effect Socket)
  reconnect = set_timer ∷ []

  unfoldable pub connect_handler : Connector → Option Socket → List (Effect Socket)
  connect_handler c none = if c.do_reconnect then reconnect else []
  connect_handler c (some k) = notify_socket k ∷ []

  unfoldable pub reconnect_handler : List (Effect Socket)
  reconnect_handler = connect
