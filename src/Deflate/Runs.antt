-- ===== src/Deflate/Runs.antt =====
-- deflate.rs at concrete frames, with the compressor that stores its input.
use wsblast.Common.{
  ◌≡◌, ◌≢◌, refl, true, false, none, some, [], ◌∷◌, ◌++◌, Bytes, codes, length, arith,
}
use wsblast.Deflate.Header.{Header, Key, parse, header_bytes, apply_mask}
use wsblast.Deflate.Header.Fields.{IsHeader}
use wsblast.Deflate.Header.RoundTrip.{parse-header_bytes}
use wsblast.Deflate.Header.Prefix.{Complete, parse-Complete}
use wsblast.Deflate.Params.{
  Role, client, server, Params, default_params, can_compress, full_window, accept_offer,
}
use wsblast.Deflate.Params
use wsblast.Deflate.Params.Agreement.{Answered, accept_offer-Answered}
use wsblast.Deflate.Codec.{ok, stuck, ◌>>=◌, inflate, deflate}
use wsblast.Deflate.Stream.{CompressionCounters, Stream, new, with_mask}
use wsblast.Deflate.Wire.{wire, wire_header}
use wsblast.Deflate.Inbound.{process_frames_in, rewrite_in}
use wsblast.Deflate.Inbound.Loop.{feed}
use wsblast.Deflate.Inbound.Chunks.{process_frames_in-feed}
use wsblast.Deflate.Inbound.Plain.{rewrite_in-wire, process_frames_in-ne-stuck}
use wsblast.Deflate.Outbound.{the_deflater, process_frames_out}
use wsblast.Deflate.Outbound.RoundTrip.{process-process_out}
use wsblast.Deflate.Toy.{toy, toy-IsFlate, stored, restored, call_of, toy_work}

abbrev key : Key
key = record { k0 = 0x37; k1 = 0xfa; k2 = 0x21; k3 = 0x3d }

-- A final text frame with a key.
abbrev text : Header
text = record {
  fin = true;
  rsv1 = false;
  rsv23 = 0;
  opcode = 1;
  mask = some key;
  len = 6;
  payload = 5;
}

text-IsHeader : IsHeader text
text-IsHeader = record { rsv_in_place = refl; rsv_small = omega arith; opcode_small = omega arith }

abbrev hello : Bytes
hello = codes "Hello"

abbrev packed_hello : Bytes
packed_hello = hello

abbrev no_counts : CompressionCounters
no_counts = record {
  offered = 0;
  negotiated_count = 0;
  bytes_sent = 0;
  wire_bytes_sent = 0;
  bytes_recv = 0;
  wire_bytes_recv = 0;
}

abbrev agreed : Role → Stream toy
agreed role = record (new toy role no_counts) { agreement = some (some default_params) }

parse-header_bytes_example :
    parse (header_bytes text true 300 ++ hello)
    ≡ some (record text { rsv1 = true; len = length (header_bytes text true 300); payload = 300 })
parse-header_bytes_example = parse-header_bytes text true 300 hello text-IsHeader (omega arith)

abbrev short_frame : Bytes
short_frame = 0x81 ∷ 0x02 ∷ codes "Hi"

abbrev short_text : Header
short_text = record {
  fin = true;
  rsv1 = false;
  rsv23 = 0;
  opcode = 1;
  mask = none;
  len = 2;
  payload = 2;
}

short_parses : parse short_frame ≡ some short_text
unfolding parse
short_parses = refl

parse-Complete_example : Complete short_frame short_text
parse-Complete_example = parse-Complete short_frame short_text short_parses

abbrev offer : Bytes
offer = codes "permessage-deflate; server_no_context_takeover"

abbrev asked : Params
asked = record default_params { server_no_context_takeover = true }

offer_parses : Params.parse offer ≡ some asked
unfolding Params.parse
offer_parses = refl

offer_accepted : accept_offer offer ≡ some offer
unfolding accept_offer
offer_accepted = refl

accept_offer-Answered_example : Answered asked offer
accept_offer-Answered_example = accept_offer-Answered asked offer offer offer_parses offer_accepted

hello_inflates : inflate toy true packed_hello 0 0 ≡ ok (hello, 5, 1)
unfolding inflate restored call_of
hello_inflates = refl

hello_deflates : deflate toy hello 0 ≡ ok (packed_hello, 1)
unfolding deflate stored call_of toy_work
hello_deflates = refl

process_frames_in-feed_example :
    (process_frames_in toy (feed toy (agreed client) (0x81 ∷ [])) >>= λ s.
    process_frames_in toy (feed toy s (0x02 ∷ codes "Hi")))
    ≡ process_frames_in toy (feed toy (agreed client) short_frame)
process_frames_in-feed_example =
    process_frames_in-feed toy (agreed client) (0x81 ∷ []) (0x02 ∷ codes "Hi")

hello_unmasks :
    inflate toy true (with_mask (some key) (apply_mask hello key)) 0 0 ≡ ok (hello, 5, 1)
unfolding inflate restored call_of apply_mask
hello_unmasks = refl

rewrite_in-wire_example :
    let masked = with_mask (some key) hello in
    let frame = wire text false masked in
    (s : Stream toy) × (rewrite_in toy default_params text masked (agreed server) ≡ ok s)
    × (s.ready_in ≡ frame)
    × (parse frame ≡ some (wire_header text false masked))
    × (with_mask (some key) masked ≡ hello)
rewrite_in-wire_example =
    rewrite_in-wire toy default_params text (apply_mask hello key) hello 5 1 (agreed server)
      text-IsHeader hello_unmasks

process_frames_in-ne-stuck_example :
    process_frames_in toy (feed toy (agreed client) short_frame) ≢ stuck
process_frames_in-ne-stuck_example =
    process_frames_in-ne-stuck toy toy-IsFlate (feed toy (agreed client) short_frame)

abbrev client_end : Stream toy
client_end = record (agreed client) { raw_out = wire text false (with_mask (some key) hello) }

client_compresses : can_compress default_params client ≡ true
unfolding can_compress
client_compresses = refl

first_deflates : deflate toy hello (the_deflater toy none) ≡ ok (packed_hello, 1)
first_deflates = hello_deflates

process-process_out_example :
    (a' : Stream toy) × (sent : Bytes) × (b' : Stream toy) × (process_frames_out toy client_end
      ≡ ok a')
    × (a'.raw_out ≡ [])
    × (a'.ready_out ≡ sent)
    × (process_frames_in toy (record (agreed server) { raw_in = sent }) ≡ ok b')
    × (b'.raw_in ≡ [])
    × (b'.ready_in ≡ wire text false (with_mask (some key) hello))
process-process_out_example =
    process-process_out toy text text-IsHeader refl refl default_params hello packed_hello hello 1 5
      1 client_end (agreed server) client_compresses refl refl refl (omega arith) (omega arith)
      first_deflates hello_inflates
