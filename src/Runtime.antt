-- ===== src/Runtime.antt =====
-- Functions of Go's standard library whose values the program passes on unread: a hash, text
-- encodings, a date format, the parsing of addresses. They are parameters of what calls them.
use oastrix.Prelude.{ℕ, Str, Option}
use oastrix.Events.{Headers}

pub record Runtime : Type 0 where
  pub sha256 : Str → Str
  pub base64 : Str → Str
  -- `time.Unix(t, 0).UTC().Format(time.RFC3339)`
  pub format_time : ℕ → Str
  pub marshal_headers : Headers → Str
  pub unmarshal_headers : Str → Option Headers
  -- `net.ParseIP`, with the address written in one way.
  pub parse_ip : Str → Option Str
