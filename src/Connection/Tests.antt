-- ===== src/Connection/Tests.antt =====
-- Two notices over the Qt stream, cut in three.
mod Fetch
mod Change
use treeipc.Base.{
  replicate, false, true, ◌≡◌, refl, List, [], ◌∷◌, ◌++◌, none, some, Option, ℕ, ◌≤◌, length, arith,
  le_bytes, le_value,
}
use treeipc.Package.{Package, empty, get_cmd}
use treeipc.Transport.Qt
use treeipc.Transport.Qt.{SocketBytestream, qt_transport}
use treeipc.Codec
use treeipc.Codec.{new_codec}
use treeipc.Dispatcher
use treeipc.Dispatcher.{
  Dispatcher, new_dispatcher, generate_msgid, release_msgid, set_flag, write_notice, write, reply,
  send_begin, send_finish, with_reply_flag,
}
use treeipc.Queue.{push}
use treeipc.Transport.Socket.{SocketApi, SocketClient, set_socket, data_ready}
use treeipc.NodeSync.Cleanup.{ended, null_pointer, named}
use treeipc.NodeSync.Subscribe.{subscribe_add_remove}
use treeipc.NodeSync.Client.{writes, listens_to}
use treeipc.Connection.Closing.{all_listen, hear_openings, hear_closings, set_socket-data_ready}
use treeipc.NodeSync.State.{new_node_sync}
use treeipc.Connection.{Receiver, on_stream}
use treeipc.Connection.Request.{on_stream-exchange}
use treeipc.Connection.Delivery.{IsNotice, Delivers, Writes, none_left, first, on_stream-Writes}

-- A subscription to the node 3, and a change of its value.
abbrev subscription : Package
subscription = 3 ∷ 0 ∷ 0 ∷ 0 ∷ 0 ∷ 0 ∷ 0 ∷ 0 ∷ 10 ∷ []

abbrev change : Package
change = 3 ∷ 0 ∷ 0 ∷ 0 ∷ 0 ∷ 0 ∷ 0 ∷ 0 ∷ 12 ∷ 5 ∷ []

subscription-IsNotice : IsNotice subscription
unfolding get_cmd le_value
subscription-IsNotice = record {
  short = omega arith;
  cmd = 10;
  has_cmd = refl;
  no_request = omega arith;
}

change-IsNotice : IsNotice change
unfolding get_cmd le_value
change-IsNotice = record { short = omega arith; cmd = 12; has_cmd = refl; no_request = omega arith }

abbrev fresh : SocketBytestream
fresh = record { send_buffer = []; out = [] }

abbrev after_one : SocketBytestream
after_one = record { send_buffer = 11 ∷ 0 ∷ 0 ∷ 0 ∷ 0 ∷ 0 ∷ subscription; out = [] }

abbrev after_two : SocketBytestream
after_two = record {
  send_buffer = after_one.send_buffer ++ (12 ∷ 0 ∷ 0 ∷ 0 ∷ 0 ∷ 0 ∷ change);
  out = [];
}

both_written : Writes qt_transport fresh (subscription ∷ change ∷ []) after_two
unfolding write_notice Dispatcher.write Codec.write Qt.write le_bytes
both_written = first {s' = after_one} refl (first {s' = after_two} refl (none_left after_two))

-- One package waits already at the other side.
abbrev busy : Receiver qt_transport
busy = record {
  out = none;
  dispatcher = new_dispatcher;
  node = new_node_sync false;
  queue = (4, change) ∷ [];
  fresh = 5;
}

abbrev pieces : List (List ℕ)
pieces =
    (11 ∷ 0 ∷ []) ∷ (0 ∷ 0 ∷ 0 ∷ 0 ∷ subscription ++ (12 ∷ [])) ∷ (0 ∷ 0 ∷ 0 ∷ 0 ∷ 0 ∷ change) ∷ []

on_stream-Writes_example :
    (r : Receiver qt_transport) × (on_stream qt_transport empty new_codec busy pieces
      ≡ some (new_codec, r))
    × Delivers qt_transport busy (subscription ∷ change ∷ []) r
on_stream-Writes_example =
    on_stream-Writes qt_transport empty busy pieces (subscription-IsNotice, (change-IsNotice, tt))
      refl both_written refl

-- A request for the names below the root, and the reply that there are none.
abbrev names_request : Package
names_request = 0 ∷ 0 ∷ 0 ∷ 0 ∷ 0 ∷ 0 ∷ 0 ∷ 0 ∷ 4 ∷ []

abbrev names_reply : Package
names_reply = 0 ∷ 0 ∷ 0 ∷ 0 ∷ 0 ∷ 0 ∷ 0 ∷ 0 ∷ 5 ∷ 0 ∷ 0 ∷ 0 ∷ 0 ∷ []

names_request-IsNotice : IsNotice (names_request ++ replicate 9 0)
unfolding get_cmd le_value
names_request-IsNotice = record {
  short = omega arith;
  cmd = 4;
  has_cmd = refl;
  no_request = omega arith;
}

abbrev idle : Dispatcher
idle = record {
  reply_in = [];
  msgid = 1;
  response_received = λ _. false;
  request_msgids = [];
  msgid_released = [];
}

takes_one : generate_msgid idle ≡ (record idle { msgid = 2 }, 1)
unfolding generate_msgid
takes_one = refl

abbrev request_sent : SocketBytestream
request_sent = record {
  send_buffer = 20 ∷ 0 ∷ 0 ∷ 0 ∷ 1 ∷ 0 ∷ (names_request ++ replicate 9 0);
  out = [];
}

request_written :
    write qt_transport (some fresh) (names_request ++ replicate 9 0) 1 ≡ (some request_sent, true)
unfolding write Codec.write Qt.write le_bytes
request_written = refl

abbrev reply_sent : SocketBytestream
reply_sent = record { send_buffer = 15 ∷ 0 ∷ 0 ∷ 0 ∷ 1 ∷ 128 ∷ names_reply; out = [] }

reply_written :
    write qt_transport (some fresh) names_reply (with_reply_flag 1) ≡ (some reply_sent, true)
unfolding write Codec.write Qt.write le_bytes
reply_written = refl

abbrev answering : Receiver qt_transport
answering = record busy { out = some fresh }

abbrev request_pieces : List (List ℕ)
request_pieces = (20 ∷ 0 ∷ 0 ∷ []) ∷ (0 ∷ 1 ∷ 0 ∷ (names_request ++ replicate 9 0)) ∷ []

abbrev reply_pieces : List (List ℕ)
reply_pieces = (15 ∷ 0 ∷ 0 ∷ 0 ∷ 1 ∷ 128 ∷ []) ∷ names_reply ∷ []

on_stream-exchange_example :
    let waiting = record idle { msgid = 2; response_received = set_flag (λ _. false) 1 false } in
    let known : List (ℕ × ℕ) = (5, 1) ∷ [] in
    let got = record waiting {
      reply_in = names_reply ++ replicate 9 0;
      response_received = set_flag waiting.response_received 1 true;
    } in
    let served = record answering {
      dispatcher = record new_dispatcher { request_msgids = known };
      queue = push answering.queue (5, names_request ++ replicate 9 0);
      fresh = 6;
    } in
    (send_begin qt_transport (some fresh) idle names_request
      ≡ some (some request_sent, waiting, some 1))
    × (on_stream qt_transport empty new_codec answering request_pieces ≡ some (new_codec, served))
    × (reply qt_transport served.out served.dispatcher 5 names_reply
        ≡ (some reply_sent, record new_dispatcher { request_msgids = [] }, true))
    × (on_stream qt_transport empty new_codec (record busy { dispatcher = waiting }) reply_pieces
        ≡ some (new_codec, record busy { dispatcher = got; fresh = 6 }))
    × (got.response_received 1 ≡ true)
    × (send_finish got 1 []
        ≡ some (release_msgid got 1, (names_reply ++ replicate 9 0) ++ replicate 9 0))
unfolding new_dispatcher generate_msgid
on_stream-exchange_example =
    on_stream-exchange qt_transport fresh request_sent fresh reply_sent idle
      (record idle { msgid = 2 }) answering busy names_request names_reply [] empty 1 request_pieces
      reply_pieces (omega arith) (omega arith) names_request-IsNotice (omega arith) takes_one
      (omega arith) (omega arith) refl request_written refl refl refl reply_written refl

silent_le : (bytes : List ℕ) (n : ℕ) → ◌≡◌ {A = Option ℕ} none (some n) → n ≤ length bytes
silent_le bytes n e = absurd (cc)

-- Sockets that take nothing.
abbrev silent : SocketApi
silent = record {
  Socket = ℕ;
  write_some = λ k bytes. (k, none);
  write_some-le = λ k bytes n e. silent_le bytes n e;
}

abbrev unconnected : SocketClient silent
unconnected = record { socket = none; is_connected = false; has_connector = false; out = [] }

set_socket-data_ready_example :
    let no_nodes : ℕ → Option ℕ = λ n. none in
    let no_below : ℕ → List ℕ = λ n. [] in
    let s = new_node_sync false in
    let subscribed = writes (subscribe_add_remove 0) in
    let rooted = record s { tracked = []; root_node = some 9 } in
    let rootless = record s { tracked = []; root_node = none } in
    let tracking = record rooted { tracked = (0, some 9) ∷ [] } in
    let broken = record rootless { tracked = (0, none) ∷ [] } in
    (hear_openings no_below no_nodes no_nodes ℕ all_listen rooted
        (set_socket silent unconnected 4).1
      ≡ (tracking, subscribed ∷ listens_to 9 ∷ []))
    × (hear_closings no_below no_nodes no_nodes ℕ all_listen tracking
          (data_ready silent unconnected none).1
        ≡ ended (named 9 ∷ named 9 ∷ []) ∷ [])
    × (hear_openings no_below no_nodes no_nodes ℕ all_listen rootless
          (set_socket silent unconnected 4).1
        ≡ (broken, subscribed ∷ []))
    × (hear_closings no_below no_nodes no_nodes ℕ all_listen broken
          (data_ready silent unconnected none).1
        ≡ null_pointer ∷ [])
set_socket-data_ready_example =
    set_socket-data_ready silent (λ n. []) (λ n. none) (λ n. none) unconnected unconnected 4
      (new_node_sync false) 9
