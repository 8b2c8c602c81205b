-- ===== src/Token.antt =====
-- OAST tokens: internal/token/token.go. What `rand.Read` delivers is an argument, `none` where it
-- fails.
pub mod Charset
use oastrix.Prelude.{ℕ, ◌%◌, Str, bytes, Option, none, some, List, map, get_or}

abbrev pub token_length : ℕ
token_length = 12

abbrev pub charset : Str
charset = bytes "abcdefghijklmnopqrstuvwxyz0123456789"

unfoldable pub charset_at : ℕ → ℕ
charset_at b = get_or charset (b % 36) 0

unfoldable pub generate : Option Str → Option Str
generate none = none
generate (some random_bytes) = some (map charset_at random_bytes)
