-- ===== src/ConnServer/Tests.antt =====
-- Two connections, and the end of the acceptor.
use treeipc.Base.{ℕ, ◌≤◌, ◌≡◌, refl, List, [], ◌∷◌, length, true, false, some, arith}
use treeipc.Transport.Socket.{SocketApi}
use treeipc.NodeSync.State.{set_root, do_track, do_track_as, generate_nid, assign}
use treeipc.ConnServer.{
  accept, close, connect_handler, Client, new_client, put, process_notification, Service, complete,
}
use treeipc.ConnServer.Serving.{Reach, start, connects, closes, client_of, Serves, Reach-Serves}

all_taken_le : (bytes : List ℕ) (n : ℕ) → some (length bytes) ≡ some n → n ≤ length bytes
all_taken_le bytes n e = ground arith

-- Sockets that take whatever they are given.
abbrev all_taken : SocketApi
all_taken = record {
  Socket = ℕ;
  write_some = λ k bytes. (k, some (length bytes));
  write_some-le = λ k bytes n e. all_taken_le bytes n e;
}

abbrev client : ℕ → (ℕ × Client all_taken (λ s. s))
client s = (s, client_of all_taken (λ s. s) 7 s)

abbrev before : Service all_taken (λ s. s)
before = record {
  acceptor = record { status = true; pending = 0 ∷ []; fresh = 1 };
  server = record { clients = []; root = some 7 };
}

abbrev once : Service all_taken (λ s. s)
once = record {
  acceptor = record { status = true; pending = 1 ∷ []; fresh = 2 };
  server = record { clients = client 0 ∷ []; root = some 7 };
}

abbrev twice : Service all_taken (λ s. s)
twice = record {
  acceptor = record { status = true; pending = 2 ∷ []; fresh = 3 };
  server = record { clients = client 0 ∷ client 1 ∷ []; root = some 7 };
}

abbrev ended : Service all_taken (λ s. s)
ended = record twice { acceptor = record { status = false; pending = 2 ∷ []; fresh = 3 } }

-- The accept that is pending is answered, and nobody is told.
abbrev refused : Service all_taken (λ s. s)
refused = record twice { acceptor = record { status = false; pending = []; fresh = 3 } }

refused-Reach : Reach all_taken (λ s. s) 7 2 refused
unfolding accept close connect_handler complete process_notification new_client set_root do_track
    generate_nid do_track_as assign put
refused-Reach =
    connects {v = ended} {v' = refused}
      (closes {v = twice}
        (connects {v = once} {v' = twice} (connects {v = before} {v' = once} start refl) refl))
      refl

Reach-Serves_example : Serves all_taken (λ s. s) 7 2 refused
Reach-Serves_example = Reach-Serves all_taken (λ s. s) 7 refused-Reach
