-- ===== src/SocketIo.antt =====
-- src/socketio.rs: Socket.IO over WebSocket. `SocketIo.Frame` has what the parts share: frames, the
-- settings of a session, and serde_json behind an interface.
pub mod EngineIo
pub mod Packet
pub mod Frame
pub mod Settings
pub mod Session
pub mod Pump
mod Runs
