-- ===== src/Deflate/Params/Runs.antt =====
-- Negotiations of deflate.rs at concrete texts.
use wsblast.Common.{◌≡◌, refl, true, some, none, codes}
use wsblast.Deflate.Params.{default_params, parse, accept_offer, negotiated}

parse_quoted :
    parse
      (codes "foo, Permessage-Deflate ; client_max_window_bits=\"+12\"; server_no_context_takeover")
    ≡ some (record default_params {
      server_no_context_takeover = true;
      client_max_window_bits = some 12;
    })
unfolding parse
parse_quoted = refl

parse_bad_bits : parse (codes "permessage-deflate; server_max_window_bits=7") ≡ none
unfolding parse
parse_bad_bits = refl

accept_plain :
    accept_offer (codes "permessage-deflate; client_max_window_bits")
    ≡ some (codes "permessage-deflate")
unfolding accept_offer
accept_plain = refl

negotiated_101 :
    negotiated (codes "HTTP/1.1 101 OK\r\nSec-WebSocket-Extensions: permessage-deflate\r\n\r\n")
    ≡ some default_params
unfolding negotiated
negotiated_101 = refl
