-- ===== src/Connection/Tests/Fetch.antt =====
-- A fetch of the name `a` below the root, over Qt streams that are cut in two.
use treeipc.Base.{
  ℕ, ◌≡◌, refl, List, [], ◌∷◌, ◌++◌, replicate, some, true, false, arith, ap, ◌∙◌, bytes_eq,
  le_bytes,
}
use treeipc.Types.{int, index}
use treeipc.Types.Samples.{byte_names, utf_eight}
use treeipc.Package.{Package, empty}
use treeipc.Package.Commands.{cmd_at_success}
use treeipc.Serializer.{init}
use treeipc.Generator.{new_generator, client_node_value}
use treeipc.Generator.Coverage.{generate_lem}
use treeipc.Transport.Qt
use treeipc.Transport.Qt.{SocketBytestream, qt_transport}
use treeipc.Queue.{pop}
use treeipc.Codec
use treeipc.Codec.{new_codec}
use treeipc.Dispatcher.{
  Dispatcher, new_dispatcher, generate_msgid, write, reply, send_begin, send_finish,
  with_reply_flag,
}
use treeipc.NodeSync.Wire.{header-append_string}
use treeipc.NodeSync.At.{fetch_request, fetch_request_lem, at_reply, fetch_response}
use treeipc.NodeSync.State.{
  find_nid, get_node_nid, do_track, do_track_as, generate_nid, new_node_sync, assign,
}
use treeipc.NodeSync.Process.{replies, process_package}
use treeipc.NodeSync.Tests.Samples.{seven, small_tree, rooted, serving, root_found}
use treeipc.Connection.{Receiver, on_stream}
use treeipc.Connection.Fetch.{on_stream-fetch}

abbrev fresh : SocketBytestream
fresh = record { send_buffer = []; out = [] }

abbrev request_bytes : Package
request_bytes = 0 ∷ 0 ∷ 0 ∷ 0 ∷ 0 ∷ 0 ∷ 0 ∷ 0 ∷ 1 ∷ 1 ∷ 0 ∷ 0 ∷ 0 ∷ 97 ∷ replicate 9 0

abbrev reply_bytes : Package
reply_bytes = 1 ∷ 0 ∷ 0 ∷ 0 ∷ 0 ∷ 0 ∷ 0 ∷ 0 ∷ 2 ∷ 1 ∷ 0 ∷ 0 ∷ 0 ∷ 67 ∷ []

request_bytes_lem : fetch_request 0 (97 ∷ []) ++ replicate 9 0 ≡ request_bytes
unfolding le_bytes
request_bytes_lem = fetch_request_lem 0 (97 ∷ []) 9

reply_bytes_lem : at_reply 1 (byte_names.name int) ≡ reply_bytes
unfolding le_bytes
reply_bytes_lem = header-append_string cmd_at_success 1 (byte_names.name int)

abbrev idle : Dispatcher
idle = record {
  reply_in = [];
  msgid = 1;
  response_received = λ _. false;
  request_msgids = [];
  msgid_released = [];
}

takes_one : generate_msgid idle ≡ (record idle { msgid = 2 }, 1)
unfolding generate_msgid
takes_one = refl

abbrev request_sent : SocketBytestream
request_sent = record { send_buffer = 25 ∷ 0 ∷ 0 ∷ 0 ∷ 1 ∷ 0 ∷ request_bytes; out = [] }

bytes_written : write qt_transport (some fresh) request_bytes 1 ≡ (some request_sent, true)
unfolding write Codec.write Qt.write le_bytes
bytes_written = refl

request_written :
    write qt_transport (some fresh) (fetch_request 0 (97 ∷ []) ++ replicate 9 0) 1
    ≡ (some request_sent, true)
request_written = ap (λ p. write qt_transport (some fresh) p 1) request_bytes_lem ∙ bytes_written

abbrev reply_sent : SocketBytestream
reply_sent = record { send_buffer = 16 ∷ 0 ∷ 0 ∷ 0 ∷ 1 ∷ 128 ∷ reply_bytes; out = [] }

reply_bytes_written :
    write qt_transport (some fresh) reply_bytes (with_reply_flag 1) ≡ (some reply_sent, true)
unfolding write Codec.write Qt.write le_bytes
reply_bytes_written = refl

reply_written :
    write qt_transport (some fresh) (at_reply 1 (byte_names.name int)) (with_reply_flag 1)
    ≡ (some reply_sent, true)
reply_written =
    ap (λ p. write qt_transport (some fresh) p (with_reply_flag 1)) reply_bytes_lem
    ∙ reply_bytes_written

-- The server, where nothing waits, and the client.
abbrev serves : Receiver qt_transport
serves = record {
  out = some fresh;
  dispatcher = new_dispatcher;
  node = rooted;
  queue = [];
  fresh = 5;
}

abbrev fetches : Receiver qt_transport
fetches = record serves { node = new_node_sync false }

one_given : get_node_nid rooted empty 1 true ≡ some (serving, some 1)
unfolding get_node_nid do_track generate_nid do_track_as assign find_nid
one_given = refl

name_found : small_tree.at seven 0 (97 ∷ []) ≡ some 1
unfolding bytes_eq
name_found = refl

abbrev request_pieces : List (List ℕ)
request_pieces = (25 ∷ 0 ∷ 0 ∷ []) ∷ (0 ∷ 1 ∷ 0 ∷ request_bytes) ∷ []

abbrev reply_pieces : List (List ℕ)
reply_pieces = (16 ∷ 0 ∷ 0 ∷ 0 ∷ 1 ∷ 128 ∷ []) ∷ reply_bytes ∷ []

on_stream-fetch_example :
    (waiting answered freed : Dispatcher) × (r' c' : Receiver qt_transport) × (rep : Package)
    × (send_begin qt_transport (some fresh) idle (fetch_request 0 (97 ∷ []))
        ≡ some (some request_sent, waiting, some 1))
    × (on_stream qt_transport empty new_codec serves request_pieces ≡ some (new_codec, r'))
    × (pop r'.queue ≡ some ((5, fetch_request 0 (97 ∷ []) ++ replicate 9 0), []))
    × (process_package utf_eight small_tree
          (init byte_names)
          (new_generator byte_names)
          seven
          r'.node
          empty
          8
          (fetch_request 0 (97 ∷ []) ++ replicate 9 0)
        ≡ some (serving, replies (at_reply 1 (byte_names.name int)) ∷ []))
    × (reply qt_transport r'.out r'.dispatcher 5 (at_reply 1 (byte_names.name int))
        ≡ (some reply_sent, answered, true))
    × (on_stream qt_transport empty new_codec (record fetches { dispatcher = waiting }) reply_pieces
        ≡ some (new_codec, c'))
    × (c'.dispatcher.response_received 1 ≡ true)
    × (send_finish c'.dispatcher 1 [] ≡ some (freed, rep))
    × (fetch_response (new_generator byte_names) c'.node 8 rep
        ≡ some (
          do_track_as (new_node_sync false) 8 1,
          some (record { address = 8; kind = client_node_value int; nid = 1 }),
        ))
on_stream-fetch_example =
    on_stream-fetch qt_transport utf_eight small_tree (init byte_names) (new_generator byte_names)
      seven fresh request_sent fresh reply_sent idle (record idle { msgid = 2 }) serves fetches
      empty serving (client_node_value int) request_pieces reply_pieces 1 0 1 0 1 8 (97 ∷ [])
      (byte_names.name int) (omega arith, tt) (omega arith, tt) (omega arith) (omega arith)
      (omega arith) (omega arith) refl
      ((generate_lem byte_names int (λ e. omega (arith, ap index e))).1) root_found name_found
      one_given takes_one (omega arith) (omega arith) refl request_written refl refl refl refl
      reply_written refl
