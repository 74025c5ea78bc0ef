-- ===== src/SocketIo/EngineIo.antt =====
-- src/socketio.rs: `EngineIo`, the two versions of the protocol below the packets.
use wsblast.Common.{ℕ, ◌≡◌, refl, Option, none, some, [], ◌∷◌, Bytes, codes, ◌==◌, if◌then◌else◌}
use wsblast.Common.Text.{text_eq}

pub data EngineIo : Type 0 where
  v3 v4 : EngineIo

unfoldable pub query : EngineIo → Bytes
query v3 = codes "3"
query v4 = codes "4"

unfoldable pub from_version : ℕ → Option EngineIo
from_version version =
    if version == 2
    then some v3
    else if version == 3
    then some v4
    else if version == 4
    then some v4
    else none

unfoldable pub from_query : Bytes → Option EngineIo
from_query value =
    if text_eq value (codes "3")
    then some v3
    else if text_eq value (codes "4")
    then some v4
    else none

unfoldable pub wrap_binary : EngineIo → Bytes → Bytes
wrap_binary v3 bytes = 4 ∷ bytes
wrap_binary v4 bytes = bytes

unfoldable pub unwrap_binary : EngineIo → Bytes → Option Bytes
unwrap_binary v3 [] = none
unwrap_binary v3 (b ∷ bytes) = if b == 4 then some bytes else none
unwrap_binary v4 bytes = some bytes

-- A binary frame that one end wraps is unwrapped to the same bytes at the other.
pub unwrap-wrap_binary :
    (engine : EngineIo) (bytes : Bytes)
    → unwrap_binary engine (wrap_binary engine bytes) ≡ some bytes
unfolding wrap_binary unwrap_binary
unwrap-wrap_binary v3 bytes = refl
unwrap-wrap_binary v4 bytes = refl
