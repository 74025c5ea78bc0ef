-- ===== src/Distributed/Protocol/Runs.antt =====
-- protocol.rs at concrete totals and tokens.
use wsblast.Common.{◌≡◌, ◌↔◌, refl, true, false, none, some, codes}
use wsblast.Distributed.Protocol.{tokens_match, bearer_token, validate_token, not_printable}
use wsblast.Distributed.Protocol.Token.{tokens_match_iff}

token_read : bearer_token (codes " bearer  secret ") ≡ some (codes "secret")
unfolding bearer_token
token_read = refl

no_token : bearer_token (codes "Basic secret") ≡ none
unfolding bearer_token
no_token = refl

token_with_space : validate_token (codes "0123456789 abcdef") ≡ some not_printable
unfolding validate_token
token_with_space = refl

longer_token : tokens_match (codes "secret") (codes "secret1") ≡ false
unfolding tokens_match
longer_token = refl

tokens_match_iff_example :
    (tokens_match (codes "secret") (codes "secre7") ≡ true) ↔ (codes "secret" ≡ codes "secre7")
tokens_match_iff_example = tokens_match_iff (codes "secret") (codes "secre7")
