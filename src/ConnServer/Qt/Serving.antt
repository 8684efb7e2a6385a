-- ===== src/ConnServer/Qt/Serving.antt =====
-- What the Qt service does with connections, after one `accept` and after two.
use treeipc.Base.{
  ℕ, suc, ◌+◌, ◌≡◌, refl, sym, subst, ap, ◌∙◌, List, [], ◌∷◌, ◌++◌, length, Bool, true, false, not,
  ◌&&◌, none, some, if◌then◌else◌, arith, ne→==, length-append, append_assoc, append-nil,
}
use treeipc.NodeSync.State.{NodeSync}
use treeipc.NodeSync.Client.Opening.{serving_root, set_root_lem}
use treeipc.ConnServer.Qt.{
  TcpApi, Acceptor, new_acceptor, accept, make_stream, slot_new_connection, ConnServer, put,
  process_notification, Service, run_slots, connection, connections,
}

module _ (api : TcpApi) (n : ℕ) where
  open api use {Server, Socket, pending, listen, next_pending, incoming}

  -- The streams over the sockets, with addresses from `s` on, and their servers, which track the root.
  unfoldable pub streams_over : ℕ → List Socket → List (ℕ × Socket)
  streams_over s [] = []
  streams_over s (k ∷ ks) = (s, k) ∷ streams_over (suc s) ks

  unfoldable pub servers_over : ℕ → List Socket → List (ℕ × NodeSync)
  servers_over s [] = []
  servers_over s (k ∷ ks) = (s, serving_root n) ∷ servers_over (suc s) ks

  unfoldable pub addresses_of : ℕ → List Socket → List ℕ
  addresses_of s [] = []
  addresses_of s (k ∷ ks) = s ∷ addresses_of (suc s) ks

  -- The service before its first connection, with the acceptor `a`.
  abbrev pub service : Acceptor api → Service api
  service a = record { acceptor = a; server = record { clients = []; root = some n; started = [] } }

  -- One slot, and a stream and a server for each connection until now.
  pub record Serves (ks : List Socket) (v : Service api) : Type 0 where
    pub is_open : v.acceptor.server_status ≡ true
    pub one_slot : v.acceptor.slots ≡ 1
    pub none_pending : pending v.acceptor.tcp_server ≡ []
    pub next_free : v.acceptor.fresh ≡ length ks
    pub streams : v.acceptor.streams ≡ streams_over 0 ks
    pub one_root : v.server.root ≡ some n
    pub each_served : v.server.clients ≡ servers_over 0 ks
    pub each_started : v.server.started ≡ addresses_of 0 ks

  -- One run of the slot, which notifies of the stream `s`.
  run_one :
      (v : Service api) (a : Acceptor api) (s : ℕ) (x : ConnServer api)
      → slot_new_connection api v.acceptor ≡ some (a, s ∷ [])
      → process_notification api v.server s ≡ some x
      → run_slots api 1 v ≡ some (record { acceptor = a; server = x })
  unfolding run_slots
  run_one v a s x e f = rw e (rw f refl)

  -- A second run finds nothing pending.
  run_two :
      (v : Service api) (a : Acceptor api) (s : ℕ) (x : ConnServer api)
      → slot_new_connection api v.acceptor ≡ some (a, s ∷ [])
      → process_notification api v.server s ≡ some x
      → slot_new_connection api a ≡ none
      → run_slots api 2 v ≡ none
  unfolding run_slots
  run_two v a s x e f g = rw e (rw f (rw g refl))

  slot_new_connection_null :
      (a : Acceptor api)
      → a.server_status ≡ true
      → pending a.tcp_server ≡ []
      → slot_new_connection api a ≡ none
  unfolding slot_new_connection
  slot_new_connection_null a h e =
      ap (λ b. if b then make_stream api a (next_pending a.tcp_server) else some (a, [])) h
      ∙ ap (λ o. make_stream api a ((next_pending a.tcp_server).0, o))
          (api.next_pending-nil a.tcp_server e)

  module _ (k : Socket) where
    streams_over-end :
        (s i : ℕ) (ks : List Socket)
        → i ≡ s + length ks
        → streams_over s ks ++ ((i, k) ∷ []) ≡ streams_over s (ks ++ (k ∷ []))
    unfolding streams_over
    streams_over-end s i [] e = ap (λ j. (j, k) ∷ []) (omega (arith, e))
    streams_over-end s i (j ∷ ks) e =
        ap (◌∷◌ (s, j)) (streams_over-end (suc s) i ks (omega (arith, e)))

    addresses_of-end :
        (s i : ℕ) (ks : List Socket)
        → i ≡ s + length ks
        → addresses_of s ks ++ (i ∷ []) ≡ addresses_of s (ks ++ (k ∷ []))
    unfolding addresses_of
    addresses_of-end s i [] e = let same : i ≡ s = omega (arith, e) in ap (λ (j : ℕ). j ∷ []) same
    addresses_of-end s i (j ∷ ks) e = ap (◌∷◌ s) (addresses_of-end (suc s) i ks (omega (arith, e)))

    put-servers_over :
        (s i : ℕ) (ks : List Socket)
        → i ≡ s + length ks
        → put api i (serving_root n) (servers_over s ks) ≡ servers_over s (ks ++ (k ∷ []))
    unfolding put servers_over
    put-servers_over s i [] e = ap (λ j. (j, serving_root n) ∷ []) (omega (arith, e))
    put-servers_over s i (j ∷ ks) e =
        rw (ne→== s i (omega (arith, e)))
          (ap (◌∷◌ (s, serving_root n)) (put-servers_over (suc s) i ks (omega (arith, e))))

    -- The connection `k`, on a service that has served the connections `ks`.
    next_stream : Server → Acceptor api → Acceptor api
    next_stream t a = record a {
      tcp_server = t;
      streams = a.streams ++ ((a.fresh, k) ∷ []);
      fresh = a.fresh + 1;
    }

    slot_new_connection_lem :
        (a : Acceptor api) (ks : List Socket)
        → a.server_status ≡ true
        → pending a.tcp_server ≡ k ∷ ks
        → slot_new_connection api a
          ≡ some (next_stream (next_pending a.tcp_server).0 a, a.fresh ∷ [])
    unfolding slot_new_connection next_stream
    slot_new_connection_lem a ks h e =
        ap (λ b. if b then make_stream api a (next_pending a.tcp_server) else some (a, [])) h
        ∙ ap (λ o. make_stream api a ((next_pending a.tcp_server).0, o))
            (api.next_pending-cons a.tcp_server k ks e).0

    next_server : ConnServer api → ℕ → ConnServer api
    next_server x s = record x {
      clients = put api s (serving_root n) x.clients;
      started = x.started ++ (s ∷ []);
    }

    process_notification_lem :
        (x : ConnServer api) (s : ℕ)
        → x.root ≡ some n
        → process_notification api x s ≡ some (next_server x s)
    unfolding process_notification next_server
    process_notification_lem x s e = rw (e, set_root_lem n) refl

    next_service : Service api → Service api
    next_service v =
        let t = incoming v.acceptor.tcp_server k in
        record {
          acceptor = next_stream (next_pending t).0 (record v.acceptor { tcp_server = t });
          server = next_server v.server v.acceptor.fresh;
        }

    waits_alone : (t : Server) → pending t ≡ [] → pending (incoming t k) ≡ k ∷ []
    waits_alone t e = api.pending-incoming t k ∙ ap (λ ks. ks ++ (k ∷ [])) e

    connection_lem :
        (ks : List Socket) (v : Service api)
        → Serves ks v
        → connection api v k ≡ some (next_service v)
    unfolding connection next_service
    connection_lem ks v h =
        let t = incoming v.acceptor.tcp_server k in
        let a : Acceptor api = record v.acceptor { tcp_server = t } in
        ap (λ n. run_slots api n (record v { acceptor = a })) h.one_slot
        ∙ run_one (record v { acceptor = a }) (next_stream (next_pending t).0 a) v.acceptor.fresh
            (next_server v.server v.acceptor.fresh)
            (slot_new_connection_lem a [] h.is_open
              (waits_alone v.acceptor.tcp_server h.none_pending))
            (process_notification_lem v.server v.acceptor.fresh h.one_root)

    next_service-Serves :
        (ks : List Socket) (v : Service api)
        → Serves ks v
        → Serves (ks ++ (k ∷ [])) (next_service v)
    unfolding next_service next_stream next_server
    next_service-Serves ks v h =
        let t = incoming v.acceptor.tcp_server k in
        let waits = waits_alone v.acceptor.tcp_server h.none_pending in
        record {
          is_open = h.is_open;
          one_slot = h.one_slot;
          none_pending = (api.next_pending-cons t k [] waits).1;
          next_free = omega (arith, h.next_free, length-append ks (k ∷ []));
          streams = rw (h.streams, h.next_free) (streams_over-end 0 (length ks) ks (omega arith));
          one_root = h.one_root;
          each_served =
              rw (h.each_served, h.next_free) (put-servers_over 0 (length ks) ks (omega arith));
          each_started =
              rw (h.each_started, h.next_free) (addresses_of-end 0 (length ks) ks (omega arith));
        }

  -- A service whose slot is connected twice.
  connection_null :
      (k : Socket) (v : Service api)
      → v.acceptor.server_status ≡ true
      → v.acceptor.slots ≡ 2
      → pending v.acceptor.tcp_server ≡ []
      → v.server.root ≡ some n
      → connection api v k ≡ none
  unfolding connection next_stream
  connection_null k v h two e r =
      let t = incoming v.acceptor.tcp_server k in
      let a : Acceptor api = record v.acceptor { tcp_server = t } in
      let waits = waits_alone k v.acceptor.tcp_server e in
      ap (λ n. run_slots api n (record v { acceptor = a })) two
      ∙ run_two (record v { acceptor = a }) (next_stream k (next_pending t).0 a) v.acceptor.fresh
          (next_server k v.server v.acceptor.fresh) (slot_new_connection_lem k a [] h waits)
          (process_notification_lem k v.server v.acceptor.fresh r)
          (slot_new_connection_null (next_stream k (next_pending t).0 a) h
            (api.next_pending-cons t k [] waits).1)

  connections-Serves :
      (ks js : List Socket) (v : Service api)
      → Serves ks v
      → (v' : Service api) × (connections api v js ≡ some v') × Serves (ks ++ js) v'
  unfolding connections
  connections-Serves ks [] v h = (v, refl, subst (λ x. Serves x v) (sym (append-nil ks)) h)
  connections-Serves ks (j ∷ js) v h =
      let (v', e, h') =
        connections-Serves (ks ++ (j ∷ [])) js (next_service j v) (next_service-Serves j ks v h) in
      (
        v',
        rw (connection_lem j ks v h) e,
        subst (λ x. Serves x v') (append_assoc ks (j ∷ []) js) h',
      )

  module _ (t : Server) (nothing : pending t ≡ []) where
    accept_once : (listen t).1 ≡ true → Serves [] (service (accept api (new_acceptor api t)))
    unfolding accept streams_over servers_over addresses_of
    accept_once ok =
        let p = api.pending-listen t ∙ nothing in
        rw ok (record {
          is_open = refl;
          one_slot = refl;
          none_pending = p;
          next_free = refl;
          streams = refl;
          one_root = refl;
          each_served = refl;
          each_started = refl;
        })

    -- After one `accept` of a QTcpServer that listens, whatever connections come in one after the other:
    -- each has its own stream over its own socket, that stream has a server that tracks the root, and it is
    -- started, in the order of the connections.
    pub accept-connections :
        (ks : List Socket)
        → (listen t).1 ≡ true
        → (v : Service api) × (connections api (service (accept api (new_acceptor api t))) ks
            ≡ some v)
          × (v.acceptor.streams ≡ streams_over 0 ks)
          × (v.server.clients ≡ servers_over 0 ks)
          × (v.server.started ≡ addresses_of 0 ks)
    accept-connections ks ok =
        let (v, e, h) = connections-Serves [] ks _ (accept_once ok) in
        (v, e, h.streams, h.each_served, h.each_started)

    -- The acceptor after two.
    twice_accepted : Acceptor api
    twice_accepted = record (new_acceptor api t) {
      tcp_server = (listen (listen t).0).0;
      server_status = true;
      slots = 2;
    }

    accept_again : (b : Bool) (x y : Acceptor api) → (if not b && not true then x else y) ≡ y
    accept_again true x y = refl
    accept_again false x y = refl

    accepted_twice :
        (listen t).1 ≡ true → accept api (accept api (new_acceptor api t)) ≡ twice_accepted
    unfolding accept twice_accepted
    accepted_twice ok = rw ok (accept_again _ _ _)

    -- After two, the first connection runs the slot twice, and the second run reads through the null pointer
    -- that it is given for a pending connection.
    pub accept_twice :
        (k : Socket) (ks : List Socket)
        → (listen t).1 ≡ true
        → connections api (service (accept api (accept api (new_acceptor api t)))) (k ∷ ks) ≡ none
    unfolding connections twice_accepted
    accept_twice k ks ok =
        let p = api.pending-listen (listen t).0 ∙ (api.pending-listen t ∙ nothing) in
        rw (accepted_twice ok)
          (rw (connection_null k (service twice_accepted) refl refl p refl) refl)
