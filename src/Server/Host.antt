-- ===== src/Server/Host.antt =====
-- Where the HTTP server finds a token and which hosts it answers: the functions `ExtractToken`
-- and `isValidHost` of internal/server/http.go, with the standard library's `net.SplitHostPort`.
-- The empty text is the answer "no token".
pub mod Split
pub mod Extract
mod Tests
use oastrix.Prelude.{
  ℕ, zero, suc, ◌+◌, Str, bytes, Bool, true, false, ◌&&◌, ◌||◌, not, Option, none, some, List, [],
  ◌∷◌, ◌++◌, ◌==◌, if◌then◌else◌, is_some, length, take, drop, index_byte, last_index_byte,
  has_prefix, trim_prefix, has_suffix, trim_suffix, trim, str_eq,
}

abbrev starts_bracket : Str → Bool
starts_bracket [] = false
starts_bracket (c ∷ s) = c == b'['

-- The last checks of `SplitHostPort`, with its `j` and `k`.
abbrev split_finish : Str → Str → ℕ → ℕ → ℕ → Option (Str × Str)
split_finish host hostport j k i =
    if is_some (index_byte (drop j hostport) b'[') || is_some (index_byte (drop k hostport) b']')
    then none
    else some (host, drop (suc i) hostport)

abbrev split_bracketed : Str → ℕ → Option (Str × Str)
split_bracketed hostport i = elim (index_byte hostport b']') [
  | none ↦ none
  | some end ↦
      if suc end == i
      then split_finish (drop 1 (take end hostport)) hostport 1 (suc end) i
      else none
]

abbrev split_plain : Str → ℕ → Option (Str × Str)
split_plain hostport i =
    if is_some (index_byte (take i hostport) b':')
    then none
    else split_finish (take i hostport) hostport 0 0 i

-- `net.SplitHostPort`: the host and the port, or `none` for its error.
unfoldable pub split_host_port : Str → Option (Str × Str)
split_host_port hostport = elim (last_index_byte hostport b':') [
  | none ↦ none
  | some i ↦ if starts_bracket hostport then split_bracketed hostport i else split_plain hostport i
]

abbrev pub is_bracket : ℕ → Bool
is_bracket c = c == b'[' || c == b']'

-- The first statements of both functions: the port cut off, and the brackets.
unfoldable pub host_name : Str → Str
host_name host = trim is_bracket (elim (split_host_port host) [ none ↦ host | some (h, port) ↦ h ])

abbrev after_dot : Str → Option ℕ → Str
after_dot s none = s
after_dot s (some i) = drop (suc i) s

abbrev before_slash : Str → Option ℕ → Str
before_slash s none = s
before_slash s (some i) = take i s

-- The branch of `ExtractToken` on the host.
unfoldable pub host_token : Str → Str → Str
host_token name domain =
    if has_suffix name (bytes "." ++ domain)
    then (let subdomain = trim_suffix name (bytes "." ++ domain) in
        after_dot subdomain (last_index_byte subdomain b'.'))
    else []

-- The branch of `ExtractToken` on the path.
unfoldable pub path_token : Str → Str
path_token path =
    if has_prefix path (bytes "/oast/")
    then (let remaining = trim_prefix path (bytes "/oast/") in
        before_slash remaining (index_byte remaining b'/'))
    else []

unfoldable pub extract_token : Str → Str → Str → Str
extract_token host path domain = elim (host_token (host_name host) domain) [
  | [] ↦ path_token path
  | c ∷ token ↦ c ∷ token
]

unfoldable pub is_valid_host : Str → Str → Str → Bool
is_valid_host host domain public_ip =
    let name = host_name host in
    if has_suffix name (bytes "." ++ domain)
    then true
    else if str_eq name domain
    then true
    else if not (str_eq public_ip []) && str_eq name public_ip
    then true
    else false
