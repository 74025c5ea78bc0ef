-- ===== src/SocketIo/Frame.antt =====
-- src/socketio.rs: WebSocket frames, what a connection gives to its reader, and JSON.
use wsblast.Common.{ℕ, Bool, Option, Bytes}
use wsblast.SocketIo.EngineIo.{EngineIo}
use wsblast.Template.{Template}

-- tungstenite's `Message`; a close frame may carry a reason.
pub data Frame : Type 0 where
  text binary ping pong : Bytes → Frame
  close : Option Bytes → Frame

-- What `ws.next()` gives.
pub data Received : Type 0 where
  frame : Frame → Received
  ended failed : Received

pub record SocketIoConfig : Type 0 where
  pub namespace : Bytes
  pub event : Bytes
  pub auth : Option Template
  pub engine : EngineIo

-- serde_json: a text as a JSON string, whether a text is JSON or a JSON object, whether it is the
-- array that holds the placeholder alone, and the `pingInterval` of a text that is JSON.
pub record Json : Type 0 where
  pub quoted : Bytes → Bytes
  pub is_json : Bytes → Bool
  pub is_object : Bytes → Bool
  pub is_placeholder : Bytes → Bool
  pub ping_interval : Bytes → Option (Option ℕ)
