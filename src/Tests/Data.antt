-- ===== src/Tests/Data.antt =====
-- The concrete inputs that the tests share: one API key, one token of it, and a server.
use oastrix.Prelude.{
  pos, str_eq_iff, ◌≢◌, false, str_eq, map, ◌≡◌, refl, arith, Str, bytes, true, none, some, [], ◌∷◌,
  take, index_byte, last_index_byte, has_prefix, trim_prefix, has_suffix, trim_suffix, trim,
}
use oastrix.Auth.{NewKey, alphanumeric_at, encode_base62, join_key, generate_api_key, hash_secret}
use oastrix.Server.Api.Handlers.{ApiServer}
use oastrix.Server.Dns.{NetAddr, udp_addr}
use oastrix.Server.Host.{
  is_valid_host, extract_token, host_name, split_host_port, host_token, path_token,
}
use oastrix.Models.{ApiKey, Token}
use oastrix.Events.{HttpRequest, DnsMsg, Question}
use oastrix.Runtime.{Runtime}
use oastrix.Db.{Db}
use oastrix.Db.Integrity.{IsWellFormed}

-- SHA-256 is replaced by the first 32 bytes, the JSON encoding of headers by one text.
abbrev pub rt : Runtime
rt = record {
  sha256 = λ s. take 32 s;
  base64 = λ s. s;
  format_time = λ t. bytes "2026-01-01T00:00:00Z";
  marshal_headers = λ h. bytes "{}";
  unmarshal_headers = λ s. some [];
  parse_ip = λ s. some s;
}

abbrev pub domain : Str
domain = bytes "oast.example"

abbrev pub ip : Str
ip = bytes "203.0.113.5"

abbrev pub tok : Str
tok = bytes "abc123abc123"

abbrev pub other : Str
other = bytes "zzz999zzz999"

abbrev pub token_row : Token
token_row = record { id = 1; token = tok; api_key_id = some 1; created_at = 7; label = none }

abbrev pub prefix : Str
prefix = bytes "abcdefgh0123"

abbrev pub secret : Str
secret = bytes "S3cret"

abbrev pub key_row : ApiKey
key_row = record {
  id = 1;
  key_prefix = prefix;
  key_hash = secret;
  created_at = 5;
  revoked_at = none;
}

abbrev pub db : Db
db = record {
  api_keys = key_row ∷ [];
  tokens = token_row ∷ [];
  interactions = [];
  http_interactions = [];
  dns_interactions = [];
  attributes = [];
  plugin_configs = [];
  last_api_key = 1;
  last_token = 1;
  last_interaction = 0;
  clock = λ n. 100;
  reads = 0;
  faults = [];
  foreign_keys = true;
}

-- A request for the token, and one for a token that is not stored.
abbrev pub request : Str → HttpRequest
request host = record {
  method = bytes "GET";
  host = host;
  path = bytes "/probe";
  raw_query = [];
  proto = bytes "HTTP/1.1";
  remote_addr = bytes "198.51.100.7:4711";
  tls = true;
  header = [];
  body = some [];
}

abbrev pub host : Str
host = bytes "abc123abc123.oast.example:443"

abbrev pub other_host : Str
other_host = bytes "zzz999zzz999.oast.example"

abbrev pub question : Str → Question
question name = record { name = name; qtype = 1; qclass = 1 }

abbrev pub message : DnsMsg
message = record {
  id = 17;
  opcode = 0;
  recursion_desired = true;
  question = question (bytes "abc123abc123.oast.example.") ∷ [];
}

pub db-IsWellFormed : IsWellFormed db
db-IsWellFormed = record {
  enforced = refl;
  tokens_numbered = ((omega arith, omega arith), tt);
  rows_numbered = tt;
  rows_owned = tt;
  http_owned = tt;
  dns_owned = tt;
  attributes_owned = tt;
  configs_owned = tt;
}

abbrev pub prefix_bytes : Str
prefix_bytes = 0 ∷ 1 ∷ 2 ∷ 3 ∷ 4 ∷ 5 ∷ 6 ∷ 7 ∷ 8 ∷ 9 ∷ 250 ∷ 255 ∷ []

abbrev pub secret_raw : Str
secret_raw = 0 ∷ 200 ∷ 13 ∷ []

abbrev pub made_key : NewKey
made_key = record {
  display_key = join_key (map alphanumeric_at prefix_bytes) (encode_base62 secret_raw);
  prefix = map alphanumeric_at prefix_bytes;
  hash = rt.sha256 (encode_base62 secret_raw);
}

pub made : generate_api_key rt.sha256 (some prefix_bytes) (some secret_raw) ≡ some made_key
unfolding generate_api_key hash_secret
made = refl

abbrev pub random_bytes : Str
random_bytes = 0 ∷ 1 ∷ 2 ∷ 26 ∷ 27 ∷ 28 ∷ 35 ∷ 36 ∷ 70 ∷ 200 ∷ 254 ∷ 255 ∷ []

abbrev pub server : ApiServer
server = record { domain = domain; public_ip = ip }

abbrev pub client : NetAddr
client = udp_addr (bytes "198.51.100.7") (pos 53000)

pub differ : (a b : Str) → str_eq a b ≡ false → a ≢ b
differ a b h e = ground (arith, str_eq_iff a b)

pub valid_host : is_valid_host host domain ip ≡ true
unfolding is_valid_host host_name split_host_port index_byte last_index_byte has_suffix trim str_eq
valid_host = refl

pub carried : extract_token host (bytes "/probe") domain ≡ tok
unfolding extract_token host_name split_host_port host_token path_token index_byte last_index_byte
    has_prefix trim_prefix has_suffix trim_suffix trim str_eq
carried = refl
