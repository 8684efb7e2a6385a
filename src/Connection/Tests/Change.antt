-- ===== src/Connection/Tests/Change.antt =====
-- The property 1 of a server changes from seven to five, over a Qt stream that is cut in two.
use treeipc.Base.{ℕ, ◌≡◌, refl, ap, ◌∙◌, List, [], ◌∷◌, none, some, true, false, arith, le_bytes}
use treeipc.Types.{int}
use treeipc.Types.Samples.{byte_names, utf_eight}
use treeipc.Package.{Package, empty}
use treeipc.Package.Commands.{cmd_prop_value_updated}
use treeipc.Serializer.{init}
use treeipc.Serializer.RoundTrip.{property, store}
use treeipc.Generator.{new_generator}
use treeipc.Transport.Qt
use treeipc.Transport.Qt.{SocketBytestream, qt_transport}
use treeipc.Queue.{pop}
use treeipc.Codec
use treeipc.Codec.{new_codec}
use treeipc.Dispatcher
use treeipc.Dispatcher.{new_dispatcher, write_notice}
use treeipc.NodeSync.State.{assign, find, find_nid, get_node, new_node_sync}
use treeipc.NodeSync.Values.{stores, notify_change, updated}
use treeipc.NodeSync.Process.{to_property, process_package}
use treeipc.PropertyFake.{PropertyFake, new_property_fake, deserialize_proxy}
use treeipc.PropertyFake.Tests.{counted}
use treeipc.NodeSync.Tests.Samples.{seven, five, small_tree, serving}
use treeipc.Connection.{Receiver, on_stream}
use treeipc.Connection.Change.{value_package-build, updated_lem, on_stream-updated}

abbrev change : Package
change = 1 ∷ 0 ∷ 0 ∷ 0 ∷ 0 ∷ 0 ∷ 0 ∷ 0 ∷ 13 ∷ 4 ∷ 0 ∷ 0 ∷ 0 ∷ 5 ∷ 0 ∷ 0 ∷ 0 ∷ []

one_tracked : find_nid 1 serving.tracked ≡ some 1
unfolding find_nid assign
one_tracked = refl

five_told :
    updated utf_eight small_tree
      (init byte_names)
      serving
      empty
      1
      (property byte_names utf_eight five)
    ≡ some change
unfolding le_bytes
five_told =
    updated_lem byte_names utf_eight small_tree (new_generator byte_names) serving 1 1 five
      (omega arith, refl) one_tracked
    ∙ ap some (value_package-build cmd_prop_value_updated 1 (5 ∷ 0 ∷ 0 ∷ 0 ∷ []))

abbrev fresh : SocketBytestream
fresh = record { send_buffer = []; out = [] }

abbrev change_sent : SocketBytestream
change_sent = record { send_buffer = 19 ∷ 0 ∷ 0 ∷ 0 ∷ 0 ∷ 0 ∷ change; out = [] }

change_written : write_notice qt_transport (some fresh) change ≡ (some change_sent, true)
unfolding write_notice Dispatcher.write Codec.write Qt.write le_bytes
change_written = refl

-- The client, whose node 1 is the proxy under the id 1.
abbrev watching : Receiver qt_transport
watching = record {
  out = none;
  dispatcher = new_dispatcher;
  node = record (new_node_sync false) { tracked = (1, some 1) ∷ [] };
  queue = [];
  fresh = 5;
}

proxy_there : get_node watching.node 1 ≡ some 1
unfolding get_node find
proxy_there = refl

abbrev proxy : PropertyFake utf_eight counted
proxy = new_property_fake utf_eight counted 1 (seven, 1)

abbrev pieces : List (List ℕ)
pieces = (19 ∷ 0 ∷ 0 ∷ []) ∷ (0 ∷ 0 ∷ 0 ∷ change) ∷ []

on_stream-updated_example :
    let did = to_property (stores 1 (store byte_names utf_eight five)) in
    (r' : Receiver qt_transport) × (a : ℕ) × (after : PropertyFake utf_eight counted) × (on_stream
        qt_transport empty new_codec watching pieces
      ≡ some (new_codec, r'))
    × (pop r'.queue ≡ some ((a, change), []))
    × (process_package utf_eight small_tree
          (init byte_names)
          (new_generator byte_names)
          seven
          r'.node
          empty
          8
          change
        ≡ some (r'.node, did ∷ to_property (notify_change 1) ∷ []))
    × (deserialize_proxy utf_eight counted small_tree
          (init byte_names)
          (byte_names.name int)
          proxy
          (store byte_names utf_eight five)
        ≡ some (after, none))
    × (counted.get after.property_value ≡ five)
on_stream-updated_example =
    on_stream-updated qt_transport byte_names utf_eight small_tree (new_generator byte_names)
      counted seven serving fresh change_sent watching empty change pieces 1 1 1 8 five seven proxy
      (omega arith, refl) (omega arith, refl) refl (omega arith) (omega arith) one_tracked
      proxy_there refl refl five_told refl change_written refl
