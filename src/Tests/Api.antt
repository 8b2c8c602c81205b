-- ===== src/Tests/Api.antt =====
-- The API as a whole, the creation of a token, and attributes.
use oastrix.Prelude.{
  pos, ℕ, ◌≡◌, refl, Str, bytes, false, none, some, List, [], ◌∷◌, ◌++◌, map, arith, lookup,
  if◌then◌else◌, ◌==◌, str_eq, to_lower, lower_byte, has_suffix, has_prefix, trim_prefix, trim,
  index_byte, last_index_byte,
}
use oastrix.Failure.{ok, err, encode}
use oastrix.Models.{AttributeRow}
use oastrix.Events.{Attributes, encodes, unencodable, kind_http}
use oastrix.Auth.{join_key, parse_api_key, parse_rest, is_alphanumeric, verify_api_key, hash_secret}
use oastrix.Token.{generate, charset_at}
use oastrix.Db.{Db}
use oastrix.Db.ApiKeys.{find_api_key, get_api_key_by_prefix}
use oastrix.Db.Tokens.{find_token, owned_by}
use oastrix.Db.Attributes.{save_attributes}
use oastrix.Db.Attributes.Laws.{
  value_at, encoded, latest, save_attributes-stored, save_attributes-unencodable,
}
use oastrix.Server.Host.{extract_token, host_name, split_host_port}
use oastrix.Server.Host.Extract.{subdomain, oast}
use oastrix.Server.Qname.{extract_token_from_qname}
use oastrix.Server.Api.Flow.{next}
use oastrix.Server.Api.Access.{authenticate, bearer}
use oastrix.Server.Api.Handlers.{payloads}
use oastrix.Server.Api.Handlers.Creation.{payloads_lead_back}
use oastrix.Server.Api.Routes.{handler, delete_token}
use oastrix.Server.Api.Routes.Isolation.{handler-keeps}
use oastrix.Tests.Data.{random_bytes, server, rt, domain, ip, tok, token_row, secret, key_row, db}

-- The token of a second key.
abbrev two_keys : Db
two_keys = record db {
  api_keys = record key_row { id = 2; key_prefix = bytes "zzzzzzzzzzzz" } ∷ key_row ∷ [];
  last_api_key = 2;
}

abbrev second_header : Str
second_header = bearer ++ join_key (bytes "zzzzzzzzzzzz") secret

stored : find_token tok two_keys.tokens ≡ some token_row
unfolding find_token str_eq
stored = refl

granted_second : (authenticate rt.sha256 second_header two_keys).0 ≡ next 2
unfolding authenticate get_api_key_by_prefix find_api_key parse_api_key parse_rest has_prefix
    trim_prefix str_eq index_byte is_alphanumeric verify_api_key hash_secret
granted_second = refl

foreign :
    (key : ℕ)
    → (authenticate rt.sha256 second_header two_keys).0 ≡ next key
    → owned_by key token_row ≡ false
foreign key granted = ground (arith, granted_second)

handler-keeps_example :
    find_token tok (handler rt server none (delete_token tok) second_header two_keys).1.tokens
    ≡ some token_row
handler-keeps_example =
    handler-keeps rt server none (delete_token tok) second_header two_keys tok token_row stored
      foreign

abbrev new_token : Str
new_token = map charset_at random_bytes

drawn : generate (some random_bytes) ≡ some new_token
unfolding generate
drawn = refl

new : find_token new_token db.tokens ≡ none
unfolding find_token str_eq charset_at
new = refl

lower : to_lower server.domain ≡ server.domain
unfolding to_lower lower_byte
lower = refl

apart : has_suffix (host_name server.public_ip) (b'.' ∷ server.domain) ≡ false
unfolding host_name split_host_port index_byte last_index_byte has_suffix trim str_eq
apart = refl

payloads_lead_back_example :
    let name = subdomain new_token domain in
    (lookup (bytes "dns") (payloads server new_token) ≡ some name)
    × (extract_token_from_qname name domain ≡ new_token)
    × (lookup (bytes "http") (payloads server new_token)
        ≡ some (bytes "http://" ++ (name ++ bytes "/")))
    × (lookup (bytes "https") (payloads server new_token)
        ≡ some (bytes "https://" ++ (name ++ bytes "/")))
    × (extract_token name (bytes "/") domain ≡ new_token)
    × (lookup (bytes "http_ip") (payloads server new_token)
        ≡ some (bytes "http://" ++ (ip ++ (oast ++ new_token))))
    × (extract_token ip (oast ++ new_token) domain ≡ new_token)
payloads_lead_back_example =
    payloads_lead_back server random_bytes new_token (bytes "/") refl drawn (ground arith) lower
      (λ e. cc) apart

abbrev with_interaction : Db
with_interaction = record db {
  interactions =
      record {
        id = 1;
        token_id = 1;
        kind = kind_http;
        occurred_at = 9;
        remote_ip = ip;
        remote_port = pos 80;
        tls = 0;
        summary = [];
      }
      ∷ [];
  attributes = record { interaction_id = 1; key = bytes "geo"; value = bytes "1" } ∷ [];
  last_interaction = 1;
}

abbrev attrs : Attributes
attrs = (bytes "geo", encodes (bytes "2")) ∷ (bytes "asn", encodes (bytes "7")) ∷ []

abbrev pairs : List (Str × Str)
pairs = (bytes "geo", bytes "2") ∷ (bytes "asn", bytes "7") ∷ []

all_encoded : encoded attrs ≡ some pairs
unfolding encoded
all_encoded = refl

save_attributes-stored_example :
    (rows : List AttributeRow) × (save_attributes 1 attrs with_interaction
      ≡ (ok tt, record with_interaction { attributes = rows }))
    × ((i : ℕ) (k : Str)
        → value_at i k rows ≡ (
            if 1 == i
            then latest k pairs (value_at i k with_interaction.attributes)
            else value_at i k with_interaction.attributes))
save_attributes-stored_example =
    save_attributes-stored 1 attrs pairs with_interaction refl refl all_encoded

abbrev bad_attrs : Attributes
bad_attrs = (bytes "geo", encodes (bytes "2")) ∷ (bytes "f", unencodable) ∷ []

one_bad : encoded bad_attrs ≡ none
unfolding encoded
one_bad = refl

save_attributes-unencodable_example :
    save_attributes 1 bad_attrs with_interaction ≡ (err encode, with_interaction)
save_attributes-unencodable_example =
    save_attributes-unencodable 1 bad_attrs with_interaction refl refl one_bad
