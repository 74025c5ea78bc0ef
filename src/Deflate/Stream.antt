-- ===== src/Deflate/Stream.antt =====
-- src/deflate.rs: `DeflateStream`'s state, and the HTTP heads that pass before the frames. After an
-- error the stream is not used again, so an error carries no state.
use wsblast.Common.{
  ℕ, ◌+◌, ◌*◌, ◌%◌, ◌^◌, Bool, true, false, not, ◌&&◌, ◌||◌, Option, none, some, List, [], ◌∷◌,
  ◌++◌, Bytes, codes, length, ltb, if◌then◌else◌,
}
use wsblast.Common.Text.{cut_at}
use wsblast.Deflate.Header.{Key, apply_mask}
use wsblast.Deflate.Params.{
  Role, client, server, Params, header, negotiated, can_compress, reset_deflater, reset_inflater,
}
use wsblast.Deflate.Params
use wsblast.Deflate.Codec.{head_too_long, Outcome, ok, fail, Flate}

-- 64 KiB
abbrev pub max_head : ℕ
max_head = 64 * 2 ^ 10

pub record CompressionCounters : Type 0 where
  pub offered : ℕ
  pub negotiated_count : ℕ
  pub bytes_sent : ℕ
  pub wire_bytes_sent : ℕ
  pub bytes_recv : ℕ
  pub wire_bytes_recv : ℕ

-- `fetch_add` on an `AtomicU64`
abbrev pub fetch_add : ℕ → ℕ → ℕ
fetch_add count n = (count + n) % 2 ^ 64

-- The agreement is `none` until the response's head has passed; then it holds the agreed parameters,
-- or `none` when the server declined. `scratch` is emptied before each use and is left out; the
-- unread part of `ready_in` and `ready_out` belongs to the polling functions.
pub record DeflateStream (f : Flate) : Type 0 where
  pub role : Role
  pub counters : CompressionCounters
  pub agreement : Option (Option Params)
  pub raw_in : Bytes
  pub ready_in : Bytes
  pub in_pos : ℕ
  pub read_head_done : Bool
  pub inflating : Bool
  pub inflated : ℕ
  pub inflater : f.Inflater
  pub raw_out : Bytes
  pub ready_out : Bytes
  pub out_pos : ℕ
  pub write_head_done : Bool
  pub deflater : Option f.Deflater

abbrev pub is_client : Role → Bool
is_client client = true
is_client server = false

abbrev head_end : Bytes
head_end = codes "\r\n\r\n"

abbrev is_some : {A : Type 0} → Option A → Bool
is_some none = false
is_some (some a) = true

-- `any(|v| Params::parse(v).is_some())`
any_offer : List Bytes → Bool
any_offer [] = false
any_offer (v ∷ vs) = is_some (Params.parse v) || any_offer vs

-- `apply_mask`, where the frame has a key: it adds the mask and removes it.
abbrev pub with_mask : Option Key → Bytes → Bytes
with_mask none bytes = bytes
with_mask (some key) bytes = apply_mask bytes key

module _ (f : Flate) where
  abbrev pub Stream : Type 0
  Stream = DeflateStream f

  abbrev pub new : Role → CompressionCounters → Stream
  new role counters = record {
    role = role;
    counters = counters;
    agreement = none;
    raw_in = [];
    ready_in = [];
    in_pos = 0;
    read_head_done = false;
    inflating = false;
    inflated = 0;
    inflater = f.new_inflater;
    raw_out = [];
    ready_out = [];
    out_pos = 0;
    write_head_done = false;
    deflater = none;
  }

  -- Reads the agreement from a response's head.
  pub read_response : Bytes → Stream → Stream
  read_response head st = elim (negotiated head) [
    | none ↦ record st { agreement = some none }
    | some params ↦ record st {
      agreement = some (some params);
      counters = record (st.counters) {
        negotiated_count = fetch_add st.counters.negotiated_count 1;
      };
    }
  ]

  -- Counts a client's request that offers compression.
  pub count_offer : Bytes → Stream → Stream
  unfolding any_offer
  count_offer head st =
      if is_client st.role && any_offer (header head (codes "sec-websocket-extensions"))
      then record st {
        counters = record (st.counters) { offered = fetch_add st.counters.offered 1 };
      }
      else st

  -- `inbound == (role == Client)`
  pub is_response : Bool → Stream → Bool
  is_response true st = is_client st.role
  is_response false st = not (is_client st.role)

  -- What `end_head` learns from a head, before it moves it on.
  pub learn : Bool → Bytes → Stream → Stream
  unfolding read_response count_offer is_response
  learn inbound head st =
      if is_response inbound st then read_response head st else count_offer head st

  pub move_head : Bool → Bytes → Bytes → Stream → Stream
  move_head true head rest st = record st { raw_in = rest; ready_in = st.ready_in ++ head }
  move_head false head rest st = record st { raw_out = rest; ready_out = st.ready_out ++ head }

  pub buffer : Bool → Stream → Bytes
  buffer true st = st.raw_in
  buffer false st = st.raw_out

  -- `none` while the head is not complete.
  unfoldable pub end_head : Bool → Stream → Outcome (Option Stream)
  unfolding learn move_head buffer cut_at
  end_head inbound st = elim (cut_at head_end (buffer inbound st)) [
    | none ↦ if ltb max_head (length (buffer inbound st)) then fail head_too_long else ok none
    | some (front, rest) ↦
        let head = front ++ head_end in
        ok (some (move_head inbound head rest (learn inbound head st)))
  ]
