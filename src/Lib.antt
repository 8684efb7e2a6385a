-- ===== src/Lib.antt =====
-- A model of treeipc, which shares a tree of nodes and their properties between processes: bytes are
-- framed into vectors, vectors are requests, replies and notices, and those carry the commands with which
-- a `node_sync` on one side serves the tree to a `node_sync` on the other.
--
-- Base: shared helpers on lists, words, maps and faults. Undefined behaviour is `none`.
-- Package: package_stream_base.h and package.cpp. A package is the list of its bytes. Package/Layout has
--   the shape of a package, Package/Commands the enum CMD, Package/Read the bounds test of `read`,
--   Package/Copy the copy constructor and assignment, Package/Text the strings.
-- Transport: reliable_bytestream_base.h as an interface, with socket_client.cpp (and the connector of
--   socket_client.h) and qt/socket_bytestream.cpp as its implementations. Sockets are parameters; what
--   the handlers call is a list of effects. Transport/Qt/Signals has the slot that sends, which runs later
--   than the write, over a socket that takes as much as it takes, and Transport/Qt/Reading the slot that reads.
-- Codec: `package_codec` of package_stream.cpp. Codec/Loop is about one round of its loop, Codec/Frames
--   and Codec/Stream about a cut stream, Codec/Send about `write`.
-- Dispatcher: `request_reply_dispatcher` of package_stream.cpp. `send` is two functions, before and after
--   its wait. Dispatcher/RoundTrip has one exchange, Dispatcher/Senders any interleaving of senders and
--   the receiver as a step relation, Dispatcher/Faults what goes wrong.
-- Observable: observable.h, the pointers between an observable and its listener.
-- Queue: locking_queue.h, with the interleavings of its threads in Queue/Fifo.
-- Types, Serializer: property_serializer.h. A plain value is its bytes in memory; type names and Qt's text
--   conversions are parameters. Serializer/Objects is about values that are no properties.
-- Generator: proxy_node_generator.cpp and the factories.
-- NodeSync: node_sync.cpp. NodeSync/State has the map of tracked nodes and the ids, NodeSync/Tracking its
--   invariant, NodeSync/Removal `remove_client_node`, NodeSync/Cleanup the end of a connection,
--   NodeSync/Tree what is asked of the tree, NodeSync/Notify the request for an id, NodeSync/Wire,
--   NodeSync/At and NodeSync/Ls nodes and names over the wire, NodeSync/Children children that appear,
--   NodeSync/Attach nodes that are attached, NodeSync/Subscribe the notices of subscription,
--   NodeSync/Values property values, NodeSync/Values/Sync that they agree on both sides, NodeSync/Process
--   the switch of `process_package`, NodeSync/Process/Typing what packages can make properties hold
--   (with Serializer/Typing and NodeSync/Values/Typing), NodeSync/Process/Thread its queue and thread,
--   NodeSync/Process/Shutdown the thread and the destructor, NodeSync/Cleanup/Faults a null pointer in the
--   map, and NodeSync/Client the subclasses of client.cpp and client_nonroot.cpp, with a new connection in
--   NodeSync/Client/Opening.
--   NodeSync/Registry sees the map of tracked nodes as a function from ids to pointers, and NodeSync/Locks
--   and NodeSync/Locks/Waiting are about `tracked_mutex` on both sides while calls wait for replies.
--   A handler returns the state and a list of what it does to the tree, the listeners and the stream.
-- Connection: one side put together, from the bytes of the stream to the queue of its `node_sync`, with
--   the delivery of notices in Connection/Delivery and a request with its reply in Connection/Request,
--   `fetch_node` from end to end in Connection/Fetch, a change of a property in Connection/Change,
--   and the way from the opening and the end of the byte stream to the `node_sync` in Connection/Closing.
-- PropertyFake: property_fake.cpp and property_value_fake.h, the proxy of a property, with its values
--   between both sides in PropertyFake/Proxy.
-- ClientNode: client_node.cpp. `get` runs over an interface of the tree, whose laws are in
--   ClientNode/Path; ClientNode/Levels is about one level of a path, ClientNode/Cache about what stays,
--   ClientNode/Owner has `attach`, `ls` and the destructor, ClientNode/Attaching what `attach`
--   sends, and ClientNode/Lifetime a node from `fetch_node` to its destructor.
-- ConnServer: acceptor.h, conn_server.h and object_status.h, with the start of main.cpp and runs of
--   connections in ConnServer/Serving;
--   ConnServer/Qt is the same service of qt/acceptor.h and qt/conn_server.h, over a QTcpServer.
--
-- Numbers are natural numbers with the wrap-around of the source's types written out. The loop of the
-- codec runs on fuel above the length of its buffer, which it shortens in each round; the loop of
-- `cleanup_children` runs on fuel for the entries of the map, and `get` of a client node on fuel above the
-- length of its path, which loses a name at each level. Texts, names and values that are sent have
-- fewer than 2 ^ 30 bytes in the theorems on them, and fewer than 2 ^ 29 from end to end; ids fit 64 bits,
-- and message ids 15.
--
-- Not modelled: the class `package_stream` of qt/, which is declared nowhere, and is an address here; the
-- event loop; and what the example program does once its service has started.
-- The tree itself is another repository: its nodes are numbers, and its calls are parameters
-- (NodeSync/Tree, ClientNode, ClientNode/Owner, PropertyFake).
pub mod Base
pub mod Package
pub mod Transport
pub mod Codec
pub mod Dispatcher
pub mod Observable
pub mod Queue
pub mod Types
pub mod Serializer
pub mod Generator
pub mod NodeSync
pub mod Connection
pub mod PropertyFake
pub mod ClientNode
pub mod ConnServer
