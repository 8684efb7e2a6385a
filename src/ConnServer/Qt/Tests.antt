-- ===== src/ConnServer/Qt/Tests.antt =====
-- A QTcpServer as the list of its pending connections and whether it listens.
use treeipc.Base.{◌≡◌, refl, ℕ, List, [], ◌∷◌, ◌++◌, Bool, true, false, not, Option, none, some}
use treeipc.ConnServer.Qt.{TcpApi, new_acceptor, accept, Service, connections}
use treeipc.ConnServer.Qt.Serving.{
  service, streams_over, servers_over, addresses_of, accept-connections, accept_twice,
}

abbrev Listener : Type 0
Listener = List ℕ × Bool

abbrev next_of : Listener → Listener × Option ℕ
next_of ([], b) = (([], b), none)
next_of (k ∷ ks, b) = ((ks, b), some k)

next_of-nil : (s : Listener) → s.0 ≡ [] → (next_of s).1 ≡ none
next_of-nil ([], b) e = refl
next_of-nil (k ∷ ks, b) e = absurd (cc)

next_of-cons :
    (s : Listener) (k : ℕ) (ks : List ℕ)
    → s.0 ≡ k ∷ ks
    → ((next_of s).1 ≡ some k) × ((next_of s).0.0 ≡ ks)
next_of-cons ([], b) k ks e = absurd (cc)
next_of-cons (j ∷ js, b) k ks e = (cc, cc)

abbrev listening : TcpApi
listening = record {
  Server = Listener;
  Socket = ℕ;
  pending = λ s. s.0;
  listen = λ s. ((s.0, true), not s.1);
  next_pending = next_of;
  incoming = λ s k. (s.0 ++ (k ∷ []), s.1);
  next_pending-nil = next_of-nil;
  next_pending-cons = next_of-cons;
  pending-listen = λ s. refl;
  pending-incoming = λ s k. refl;
}

abbrev closed : Listener
closed = ([], false)

accept-connections_example :
    (v : Service listening) × (connections listening
        (service listening 7 (accept listening (new_acceptor listening closed)))
        (31 ∷ 32 ∷ [])
      ≡ some v)
    × (v.acceptor.streams ≡ streams_over listening 7 0 (31 ∷ 32 ∷ []))
    × (v.server.clients ≡ servers_over listening 7 0 (31 ∷ 32 ∷ []))
    × (v.server.started ≡ addresses_of listening 7 0 (31 ∷ 32 ∷ []))
accept-connections_example = accept-connections listening 7 closed refl (31 ∷ 32 ∷ []) refl

accept_twice_example :
    connections listening
      (service listening 7 (accept listening (accept listening (new_acceptor listening closed))))
      (31 ∷ [])
    ≡ none
accept_twice_example = accept_twice listening 7 closed refl 31 [] refl
