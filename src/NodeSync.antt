-- ===== src/NodeSync.antt =====
-- node_sync.h and node_sync.cpp, class `node_sync`, with server.cpp, client.cpp and client_nonroot.cpp:
-- the node ids of a tree that is shared over a package stream.
pub mod State
pub mod Tracking
pub mod Removal
pub mod Registry
pub mod Cleanup
pub mod Tree
pub mod Wire
pub mod Notify
pub mod Children
pub mod Subscribe
pub mod Attach
pub mod At
pub mod Ls
pub mod Values
pub mod Process
pub mod Locks
pub mod Client
pub mod Tests
