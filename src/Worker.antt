-- ===== src/Worker.antt =====
-- src/worker.rs: one connection slot of a run. Instants and durations are nanoseconds. The parts
-- that decide something without a socket are here; Worker.Echo has the echo loop.
pub mod Schedule
pub mod Echo
pub mod Loop
pub mod Replies
pub mod Accounts
pub mod Lifecycle
pub mod Connections
pub mod Streaming
mod Runs
use wsblast.Common.{
  ℕ, zero, suc, ◌+◌, ◌-◌, ◌*◌, ◌^◌, ◌%◌, min, max, Bool, true, false, not, ◌&&◌, ◌||◌, Option, none,
  some, List, [], ◌∷◌, ◌++◌, Bytes, codes, map, length, ltb, leb, ◌==◌, if◌then◌else◌, ◌>>=◌,
}
use wsblast.Common.Text.{lower, text_eq, parse_unsigned, cut_at}
use wsblast.Json.{Serde}
use wsblast.SocketIo.Frame.{Frame, text, binary, ping, pong, close}
use wsblast.Config.Matching.{ReplyMatch, first, exact, json_pointer}
use wsblast.Metrics.{
  ErrorCategory, dns_resolution, tcp_connect, tls_handshake, http_upgrade_rejected, protocol_error,
  write_error, read_error, timeout, unexpected_close, other,
}

-- `Message` has equality of its kind and payload.
abbrev same_reason : Option Bytes → Option Bytes → Bool
same_reason none none = true
same_reason (some a) (some b) = text_eq a b
same_reason none (some b) = false
same_reason (some a) none = false

unfoldable pub same_frame : Frame → Frame → Bool
same_frame (text a) (text b) = text_eq a b
same_frame (binary a) (binary b) = text_eq a b
same_frame (ping a) (ping b) = text_eq a b
same_frame (pong a) (pong b) = text_eq a b
same_frame (close a) (close b) = same_reason a b
same_frame (text a) frame = false
same_frame (binary a) frame = false
same_frame (ping a) frame = false
same_frame (pong a) frame = false
same_frame (close a) frame = false

unfoldable pub message_byte_len : Frame → ℕ
message_byte_len (text t) = length t
message_byte_len (binary b) = length b
message_byte_len (ping p) = length p
message_byte_len (pong p) = length p
message_byte_len (close reason) = 0

-- The bytes of a data frame.
abbrev frame_data : Frame → Option Bytes
frame_data (text t) = some t
frame_data (binary b) = some b
frame_data (ping p) = none
frame_data (pong p) = none
frame_data (close reason) = none

abbrev is_sequence : ℕ → Option ℕ → Bool
is_sequence seq none = false
is_sequence seq (some n) = n == seq

-- `as_u64` is the number of a JSON number, where it has 64 bits and no sign.
module _ {V : Type 0} (serde : Serde V) (as_u64 : V → Option ℕ) where
  -- `Some(Value::String(text))`
  abbrev string_sequence : ℕ → Option Bytes → Bool
  string_sequence seq none = false
  string_sequence seq (some t) = is_sequence seq (parse_unsigned (2 ^ 64 - 1) t)

  abbrev value_sequence : ℕ → V → Option ℕ → Bool
  value_sequence seq value (some n) = n == seq
  value_sequence seq value none = string_sequence seq (serde.as_string value)

  abbrev pointed_sequence : ℕ → Option V → Bool
  pointed_sequence seq none = false
  pointed_sequence seq (some value) = value_sequence seq value (as_u64 value)

  unfoldable pub reply_matches : ReplyMatch → Frame → Option Frame → ℕ → Bool
  unfolding same_frame
  reply_matches first frame sent seq = true
  reply_matches exact frame none seq = false
  reply_matches exact frame (some sent) seq = same_frame sent frame
  reply_matches (json_pointer pointer) frame sent seq = pointed_sequence seq (
      frame_data frame >>= λ data_bytes.
      serde.from_str data_bytes >>= λ value. serde.pointer value pointer)

pub data ErrorDirection : Type 0 where
  connecting writing reading : ErrorDirection

-- `io::ErrorKind`, as far as the kinds are told apart.
pub data IoKind : Type 0 where
  timed_out connection_refused connection_reset broken_pipe unexpected_eof other_kind : IoKind

-- tungstenite's `Error`; an I/O error has its message, and may wrap an error of rustls.
pub data TungsteniteError : Type 0 where
  connection_closed already_closed : TungsteniteError
  http_status : ℕ → TungsteniteError
  io_error : Bytes → Bool → IoKind → TungsteniteError
  tls_error protocol_violation write_buffer_full other_error : TungsteniteError

-- `message.contains(…)`
abbrev is_cut : Option (Bytes × Bytes) → Bool
is_cut none = false
is_cut (some cut) = true

abbrev text_has : Bytes → Bytes → Bool
text_has pattern message = is_cut (cut_at pattern message)

unfoldable pub is_dns_resolution_error : Bytes → Bool
is_dns_resolution_error message =
    let lowered = map lower message in
    text_has (codes "failed to lookup address information") lowered
    || (text_has (codes "nodename nor servname") lowered
        || (text_has (codes "name or service not known") lowered
            || (text_has (codes "temporary failure in name resolution") lowered
                || text_has (codes "no address associated with hostname") lowered)))

abbrev by_direction : ErrorDirection → ErrorCategory
by_direction connecting = tcp_connect
by_direction writing = write_error
by_direction reading = read_error

abbrev by_kind : IoKind → ErrorDirection → ErrorCategory
by_kind timed_out direction = timeout
by_kind connection_refused direction = tcp_connect
by_kind connection_reset direction = by_direction direction
by_kind broken_pipe direction = by_direction direction
by_kind unexpected_eof direction = by_direction direction
by_kind other_kind direction = by_direction direction

abbrev is_connecting : ErrorDirection → Bool
is_connecting connecting = true
is_connecting writing = false
is_connecting reading = false

-- `is_client_error() || is_server_error()`
abbrev is_error_status : ℕ → Bool
is_error_status status = leb 400 status && ltb status 600

unfoldable pub categorize_session_error : TungsteniteError → ErrorDirection → ErrorCategory
unfolding is_dns_resolution_error
categorize_session_error connection_closed direction = unexpected_close
categorize_session_error already_closed direction = unexpected_close
categorize_session_error (http_status status) direction =
    if is_error_status status then http_upgrade_rejected else protocol_error
categorize_session_error (io_error message rustls kind) direction =
    if is_dns_resolution_error message
    then dns_resolution
    else if is_connecting direction && rustls
    then tls_handshake
    else by_kind kind direction
categorize_session_error tls_error direction = tls_handshake
categorize_session_error protocol_violation direction = protocol_error
categorize_session_error write_buffer_full direction = write_error
categorize_session_error other_error direction = other
