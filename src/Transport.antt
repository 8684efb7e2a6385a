-- ===== src/Transport.antt =====
-- The byte streams below the codec: reliable_bytestream_base.h as an interface, and the two streams
-- of the repository that fill it (socket_client.cpp, qt/socket_bytestream.cpp).
mod Interface
pub mod Socket
pub mod Qt
mod Tests
pub use Interface.{Transport}
