-- ===== src/Auth/Tests.antt =====
-- Tests and concrete inputs for API keys.
use oastrix.Prelude.{◌≡◌, refl, bytes, some, [], ◌∷◌, has_prefix, trim_prefix, str_eq, index_byte}
use oastrix.Auth.{encode_base62, parse_api_key, parse_rest, is_alphanumeric}

encode_small : encode_base62 (0 ∷ 0 ∷ 1 ∷ 0 ∷ []) ≡ bytes "0048"
unfolding encode_base62
encode_small = refl

parse_small :
    parse_api_key (bytes "oastrix_abcdefgh0123_a_b") ≡ some (bytes "abcdefgh0123", bytes "a_b")
unfolding parse_api_key parse_rest has_prefix trim_prefix str_eq index_byte is_alphanumeric
parse_small = refl
