-- ===== src/Dispatcher/Tests.antt =====
-- Runs of the dispatcher, and instances of the theorems about it, over the Qt stream.
use treeipc.Base.{◌<◌, ◌≡◌, ◌^◌, refl, [], ◌∷◌, ◌++◌, replicate, true, false, some, arith}
use treeipc.Package.{Package}
use treeipc.Transport.Qt.{SocketBytestream, qt_transport}
use treeipc.Dispatcher.{
  Dispatcher, answered, notified, set_flag, frame, generate_msgid, release_msgid, new_dispatcher,
  reply, send_finish, process_notification, with_reply_flag,
}
use treeipc.Dispatcher.Senders.{
  Senders, begin, Reach, start, next, count, IsExact, Reach-IsExact, in_flight_unique,
}
use treeipc.Dispatcher.Faults.{replies_swapped, flagged_request_lost, after_reply}

abbrev node_request : Package
node_request = 0 ∷ 0 ∷ 0 ∷ 0 ∷ 0 ∷ 0 ∷ 0 ∷ 0 ∷ 4 ∷ []

abbrev node_reply : Package
node_reply = 0 ∷ 0 ∷ 0 ∷ 0 ∷ 0 ∷ 0 ∷ 0 ∷ 0 ∷ 5 ∷ 0 ∷ 0 ∷ 0 ∷ 0 ∷ []

abbrev quiet : SocketBytestream
quiet = record { send_buffer = []; out = [] }

-- A new dispatcher, and the same after its first id.
abbrev idle : Dispatcher
idle = record {
  reply_in = [];
  msgid = 1;
  response_received = λ _. false;
  request_msgids = [];
  msgid_released = [];
}

-- One request in flight.
abbrev one_waiting : Senders
one_waiting = record {
  dispatcher = record new_dispatcher {
    msgid = 2;
    response_received = set_flag (λ _. false) 1 false;
  };
  waiting = 1 ∷ [];
}

new_takes_one : generate_msgid new_dispatcher ≡ (record new_dispatcher { msgid = 2 }, 1)
unfolding generate_msgid new_dispatcher
new_takes_one = refl

one_waiting-Reach : Reach one_waiting
unfolding new_dispatcher generate_msgid
one_waiting-Reach =
    next start (begin (omega arith) (record new_dispatcher { msgid = 2 }) 1 new_takes_one)

Reach-IsExact_example : IsExact one_waiting
Reach-IsExact_example = Reach-IsExact one_waiting-Reach

in_flight_unique_example :
    (count 1 [] ≡ 0) × (count 1 new_dispatcher.msgid_released ≡ 0) × (0 < 1) × (1 < 2 ^ 15)
in_flight_unique_example = in_flight_unique [] [] 1 one_waiting-Reach refl

replies_swapped_example :
    let d' = after_reply idle 1 node_reply in
    let d'' = after_reply d' 2 node_request in
    (process_notification idle 3 (frame (with_reply_flag 1) node_reply) ≡ some (d', answered 1))
    × (process_notification d' 3 (frame (with_reply_flag 2) node_request) ≡ some (d'', answered 2))
    × (d''.response_received 1 ≡ true)
    × (send_finish d'' 1 []
        ≡ some (release_msgid d'' 1, (node_request ++ replicate 9 0) ++ replicate 9 0))
replies_swapped_example =
    replies_swapped idle 3 1 2 node_reply node_request [] (omega arith) (omega arith) (omega arith)
      (omega arith) (omega arith) (omega arith)

flagged_request_lost_example :
    ((generate_msgid (record idle { msgid = 2 ^ 15 })).1 ≡ 2 ^ 15)
    × (process_notification idle 7 (frame (2 ^ 15) node_request)
        ≡ some (idle, notified 7 node_request))
    × (reply qt_transport (some quiet) idle 7 node_reply ≡ (some quiet, idle, false))
flagged_request_lost_example =
    flagged_request_lost (record idle { msgid = 2 ^ 15 }) idle 7 node_request node_reply
      qt_transport (some quiet) refl refl refl
