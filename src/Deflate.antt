-- ===== src/Deflate.antt =====
-- src/deflate.rs: permessage-deflate as a layer between the connection and the WebSocket library.
pub mod Header
pub mod Params
pub mod Codec
pub mod Stream
pub mod Wire
pub mod Inbound
pub mod Outbound
pub mod Buffers
pub mod Toy
mod Runs
