-- ===== src/Socket.antt =====
-- crates/forgetty-socket: the frames of the output stream, the JSON-RPC methods, the connections and the layout stream.
pub mod Framing
pub mod Json
pub mod Protocol
pub mod Handlers
pub mod Dispatch
pub mod Stream
pub mod Layout
pub mod Server
mod Tests
