-- ===== src/ConnServer/Serving.antt =====
-- What the service does with any run of connections.
use treeipc.Base.{
  ℕ, zero, suc, ◌+◌, ◌≡◌, ◌≢◌, refl, sym, ap, ◌∙◌, List, [], ◌∷◌, true, false, Option, some,
  if◌then◌else◌, ◌>>=◌, arith, ne→==, Bool-cases, inl, inr, subst,
}
use treeipc.Transport.Socket.{SocketApi, Effect, set_socket}
use treeipc.Codec.{new_codec}
use treeipc.Dispatcher.{new_dispatcher}
use treeipc.NodeSync.State.{NodeSync}
use treeipc.NodeSync.Client.Opening.{serving_root, set_root_lem}
use treeipc.ConnServer.{
  Acceptor, accept, connect_handler, close, Client, new_socket_client, new_client, ConnServer, put,
  process_notification, Service, complete, complete_first, after_handler, notify_all, main,
}

module _ (api : SocketApi) (socket_at : ℕ → SocketApi.Socket api) (n : ℕ) where
  -- A service of the root `n` after its first `accept`, the connections that come in, and the end of
  -- the acceptor; the number counts the connections while it was open.
  pub data Reach : ℕ → Service api socket_at → Type 0 where
    start : Reach 0 (main api socket_at n)
    connects :
        {k : ℕ} {v v' : Service api socket_at}
        → Reach k v
        → complete api socket_at v ≡ some v'
        → Reach (if v.acceptor.status then suc k else k) v'
    closes :
        {k : ℕ} {v : Service api socket_at}
        → Reach k v
        → Reach k (record v { acceptor = close v.acceptor })

  -- The client of a connection: connected to its own socket, with a fresh codec and dispatcher, and a
  -- server that tracks the root under 0.
  abbrev pub client_of : ℕ → Client api socket_at
  client_of s = record {
    sc = (set_socket api (new_socket_client api socket_at) (socket_at s)).0;
    codec = new_codec;
    sd = new_dispatcher;
    srv = serving_root n;
  }

  -- The clients of the sockets from `s` on, `k` of them.
  unfoldable pub clients_from : ℕ → ℕ → List (ℕ × Client api socket_at)
  clients_from s zero = []
  clients_from s (suc k) = (s, client_of s) ∷ clients_from (suc s) k

  -- While the acceptor is open one accept is pending, for a socket of its own; and as many connections as
  -- have come in, each has its own client, of its own socket, in the order of the connections.
  pub record Serves (k : ℕ) (v : Service api socket_at) : Type 0 where
    pub each_served : v.server.clients ≡ clients_from 0 k
    pub one_root : v.server.root ≡ some n
    pub one_pending : v.acceptor.status ≡ true → v.acceptor.pending ≡ k ∷ []
    pub next_free : v.acceptor.status ≡ true → v.acceptor.fresh ≡ k + 1

  put-clients_from :
      (s k i : ℕ)
      → i ≡ s + k
      → put api socket_at i (client_of i) (clients_from s k) ≡ clients_from s (suc k)
  unfolding put clients_from
  put-clients_from s zero i e = ap (λ j. (j, client_of j) ∷ []) (omega (arith, e))
  put-clients_from s (suc k) i e =
      rw (ne→== s i (omega (arith, e)))
        (ap (◌∷◌ (s, client_of s)) (put-clients_from (suc s) k i (omega (arith, e))))

  new_client_lem :
      (s : ℕ)
      → new_client api socket_at s (some n)
        ≡ some (client_of s, (set_socket api (new_socket_client api socket_at) (socket_at s)).1)
  unfolding new_client
  new_client_lem s =
      let (sc, effects) = set_socket api (new_socket_client api socket_at) (socket_at s) in
      let made : NodeSync → Client api socket_at =
        λ srv. record { sc = sc; codec = new_codec; sd = new_dispatcher; srv = srv } in
      ap (λ m. m >>= λ srv. some (made srv, effects)) (set_root_lem n)

  process_notification_lem :
      (x : ConnServer api socket_at) (s : ℕ)
      → x.root ≡ some n
      → (effects : List (Effect (SocketApi.Socket api))) × (process_notification api socket_at x s
          ≡ some (record x { clients = put api socket_at s (client_of s) x.clients }, effects))
  unfolding process_notification
  process_notification_lem x s e =
      let Made : Type 0 = Client api socket_at × List (Effect (SocketApi.Socket api)) in
      let placed : Made → Option (ConnServer api socket_at × List (Effect (SocketApi.Socket api))) =
        λ m. some (record x { clients = put api socket_at s m.0 x.clients }, m.1) in
      (
        (set_socket api (new_socket_client api socket_at) (socket_at s)).1,
        ap (λ r. new_client api socket_at s r >>= placed) e
            ∙ ap (λ m. m >>= placed) (new_client_lem s),
      )

  -- The acceptor once its pending accept has been answered.
  abbrev again : Acceptor → Acceptor
  again a = accept (record a { pending = [] })

  complete_open :
      (k : ℕ) (a : Acceptor) (x : ConnServer api socket_at)
      → x.root ≡ some n
      → a.status ≡ true
      → complete_first api socket_at a x (k ∷ [])
        ≡ some (record {
          acceptor = again a;
          server = record x { clients = put api socket_at k (client_of k) x.clients };
        })
  unfolding connect_handler
  complete_open k a x er es =
      let (effects, e) = process_notification_lem x k er in
      ap
        (λ b.
          after_handler api socket_at x
            (if b then (again a, k ∷ []) else (record a { pending = [] }, [])))
        es
      ∙ ap
          (λ m. (m >>= λ r. notify_all api socket_at r.0 []) >>= λ y.
            some (record { acceptor = again a; server = y }))
          e

  complete_closed :
      (a : Acceptor) (x : ConnServer api socket_at) (pending : List ℕ)
      → a.status ≡ false
      → (a' : Acceptor) × (complete_first api socket_at a x pending
          ≡ some (record { acceptor = a'; server = x }))
        × (a'.status ≡ false)
  unfolding connect_handler
  complete_closed a x [] es = (a, refl, es)
  complete_closed a x (s ∷ pending) es =
      let a' : Acceptor = record a { pending = pending } in
      (
        a',
        ap (λ b. after_handler api socket_at x (if b then (accept a', s ∷ []) else (a', []))) es,
        es,
      )

  Serves-open :
      (k : ℕ) (v : Service api socket_at)
      → v.acceptor.status ≡ true
      → Serves k v
      → (v' : Service api socket_at) × (complete api socket_at v ≡ some v') × Serves (suc k) v'
  unfolding complete accept
  Serves-open k v es h = (
    record {
      acceptor = again v.acceptor;
      server = record v.server { clients = put api socket_at k (client_of k) v.server.clients };
    },
    ap (complete_first api socket_at v.acceptor v.server) (h.one_pending es)
        ∙ complete_open k v.acceptor v.server h.one_root es,
    record {
      each_served =
          ap (put api socket_at k (client_of k)) h.each_served
          ∙ put-clients_from 0 k k (omega arith);
      one_root = h.one_root;
      one_pending = λ e. ap (λ f. f ∷ []) (h.next_free es ∙ omega arith);
      next_free = λ e. omega (arith, h.next_free es);
    },
  )

  Serves-closed :
      (k : ℕ) (v : Service api socket_at)
      → v.acceptor.status ≡ false
      → Serves k v
      → (v' : Service api socket_at) × (complete api socket_at v ≡ some v') × Serves k v'
  unfolding complete
  Serves-closed k v es h =
      let (a, e, s) = complete_closed v.acceptor v.server v.acceptor.pending es in
      (
        record { acceptor = a; server = v.server },
        e,
        record {
          each_served = h.each_served;
          one_root = h.one_root;
          one_pending = λ t. absurd (cc);
          next_free = λ t. absurd (cc);
        },
      )

  complete-Serves :
      (k : ℕ) (v : Service api socket_at)
      → Serves k v
      → (v' : Service api socket_at) × (complete api socket_at v ≡ some v')
        × Serves (if v.acceptor.status then suc k else k) v'
  complete-Serves k v h = elim (Bool-cases v.acceptor.status) [
    | inl opens ↦
        let (v', e, s) = Serves-open k v opens h in
        (v', e, subst (λ b. Serves (if b then suc k else k) v') (sym opens) s)
    | inr shut ↦
        let (v', e, s) = Serves-closed k v shut h in
        (v', e, subst (λ b. Serves (if b then suc k else k) v') (sym shut) s)
  ]

  some_eq : {v v' : Service api socket_at} → some v ≡ some v' → v ≡ v'
  some_eq e = cc

  -- However connections come in, and wherever among them the acceptor ends: one accept stays pending
  -- while the acceptor is open, and each of the connections until then has a client of its own, of its
  -- own socket, with a server that tracks the root under 0; those after that have none.
  pub Reach-Serves : {k : ℕ} {v : Service api socket_at} → Reach k v → Serves k v
  unfolding accept clients_from close
  Reach-Serves start = record {
    each_served = refl;
    one_root = refl;
    one_pending = λ e. refl;
    next_free = λ e. refl;
  }
  Reach-Serves (connects {k = k} {v = v} r e) =
      let (v', e', s) = complete-Serves k v (Reach-Serves r) in
      subst (Serves (if v.acceptor.status then suc k else k)) (some_eq (sym e' ∙ e)) s
  Reach-Serves (closes r) =
      let h = Reach-Serves r in
      record {
        each_served = h.each_served;
        one_root = h.one_root;
        one_pending = λ e. absurd (shut e);
        next_free = λ e. absurd (shut e);
      }
    where
      shut : false ≢ true
      shut e = cc

  -- In every state that is reached, boost's next call of the handler returns.
  pub Reach-complete :
      {k : ℕ} {v : Service api socket_at}
      → Reach k v
      → (v' : Service api socket_at) × (complete api socket_at v ≡ some v')
  Reach-complete {k = k} {v = v} r =
      let (v', e, s) = complete-Serves k v (Reach-Serves r) in (v', e)
