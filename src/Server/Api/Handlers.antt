-- ===== src/Server/Api/Handlers.antt =====
-- The handlers of the API: internal/server/api.go.
pub mod Ownership
pub mod Creation
pub mod Listing
use oastrix.Plugins.Interfaces
use oastrix.Server.Api.Flow.{Flow, returned, next, Handler, ◌>>=◌, ◌>>◌, present, attempt, reply}
use oastrix.Server.Api.Access.{database_error, owned_token}
use oastrix.Prelude.{
  ℕ, Str, bytes, true, not, Option, none, some, List, [], ◌∷◌, ◌++◌, map, if◌then◌else◌, ◌==◌,
  str_eq,
}
use oastrix.Failure.{Result, ok, err}
use oastrix.Models.{Interaction, HttpInteraction, DnsInteraction}
use oastrix.Events.{Headers, kind_http, kind_dns}
use oastrix.Runtime.{Runtime}
use oastrix.Token.{generate}
use oastrix.Db.{Db}
use oastrix.Db.Tokens.{create_token, delete_token, TokenWithCount, list_tokens_by_api_key}
use oastrix.Db.Interactions.{get_interactions_by_token, get_http_interaction, get_dns_interaction}
use oastrix.Server.Api.Types.{
  TokenInfo, HttpInteractionDetail, DnsInteractionDetail, InteractionResponse, PluginInfo,
  create_token_response, list_tokens_response, get_interactions_response, delete_token_response,
  list_plugins_response, write_json, error_json,
}

abbrev pub token_info : (ℕ → Str) → TokenWithCount → TokenInfo
token_info format_time t = record {
  token = t.token;
  label = t.label;
  created_at = format_time t.created_at;
  interaction_count = t.interaction_count;
}

unfoldable pub handle_list_tokens : Runtime → ℕ → Handler ⊥
handle_list_tokens rt api_key_id = do
  tokens ← attempt (list_tokens_by_api_key api_key_id) database_error
  reply (write_json 200 (list_tokens_response (map (token_info rt.format_time) tokens)))

-- What one call of `Decode` on the body finds.
pub data Decoded {ℓ} (A : Type ℓ) : Type ℓ where
  value : A → Decoded A
  eof : Decoded A
  too_large : Decoded A
  invalid : Decoded A

-- The label that the body asks for. A body is absent, or what two calls of `Decode` find in it.
unfoldable pub decode_label : Option (Decoded Str × Decoded (Unit {0})) → Handler Str
decode_label none db = (next [], db)
decode_label (some (too_large, trailing)) db =
    (returned (error_json 413 "request body too large"), db)
decode_label (some (invalid, trailing)) db = (returned (error_json 400 "invalid JSON"), db)
decode_label (some (value label, eof)) db = (next label, db)
decode_label (some (eof, eof)) db = (next [], db)
decode_label (some (_, _)) db = (returned (error_json 400 "unexpected trailing data"), db)

abbrev pub label_ptr : Str → Option Str
label_ptr [] = none
label_ptr (c ∷ s) = some (c ∷ s)

-- `APIServer`, without the database, the logger and the plugins.
pub record ApiServer : Type 0 where
  pub domain : Str
  pub public_ip : Str

abbrev pub ip_payloads : Str → Str → List (Str × Str)
ip_payloads [] tok = []
ip_payloads (c ∷ ip) tok =
    (bytes "http_ip", bytes "http://" ++ ((c ∷ ip) ++ (bytes "/oast/" ++ tok)))
    ∷ (bytes "https_ip", bytes "https://" ++ ((c ∷ ip) ++ (bytes "/oast/" ++ tok)))
    ∷ []

unfoldable pub payloads : ApiServer → Str → List (Str × Str)
payloads s tok =
    (bytes "dns", tok ++ (bytes "." ++ s.domain))
    ∷ (bytes "http", bytes "http://" ++ (tok ++ (bytes "." ++ (s.domain ++ bytes "/"))))
    ∷ (bytes "https", bytes "https://" ++ (tok ++ (bytes "." ++ (s.domain ++ bytes "/"))))
    ∷ ip_payloads s.public_ip tok

unfoldable pub handle_create_token :
    ApiServer → Option (Decoded Str × Decoded (Unit {0})) → Option Str → ℕ → Handler ⊥
unfolding decode_label payloads
handle_create_token s body random_read api_key_id = do
  label ← decode_label body
  tok ← present (generate random_read) (error_json 500 "failed to generate token")
  id ←
      attempt (create_token tok (some api_key_id) (label_ptr label))
        (error_json 500 "failed to create token")
  reply (write_json 200 (create_token_response tok (payloads s tok)))

abbrev pub or_no_headers : Option Headers → Headers
or_no_headers none = []
or_no_headers (some h) = h

abbrev pub http_detail : Runtime → HttpInteraction → HttpInteractionDetail
http_detail rt h = record {
  method = h.method;
  scheme = h.scheme;
  host = h.host;
  path = h.path;
  query = h.query;
  headers = or_no_headers (rt.unmarshal_headers h.request_headers);
  body = rt.base64 h.request_body;
}

abbrev pub dns_detail : DnsInteraction → DnsInteractionDetail
dns_detail d = record {
  qname = d.qname;
  qtype = d.qtype;
  qclass = d.qclass;
  rd = not (d.rd == 0);
  opcode = d.opcode;
  dns_id = d.dns_id;
  protocol = d.protocol;
}

-- An error in reading the details is logged, and leaves them out.
abbrev pub found_detail {ℓ κ} :
    {A : Type ℓ} {B : Type κ} → (A → B) → Result (Option A) × Db → Option B × Db
found_detail f (ok (some a), db) = (some (f a), db)
found_detail f (ok none, db) = (none, db)
found_detail f (err e, db) = (none, db)

unfoldable pub read_http : Runtime → Interaction → Db → Option HttpInteractionDetail × Db
read_http rt i db =
    if str_eq i.kind kind_http
    then found_detail (http_detail rt) (get_http_interaction i.id db)
    else (none, db)

unfoldable pub read_dns : Interaction → Db → Option DnsInteractionDetail × Db
read_dns i db =
    if str_eq i.kind kind_dns
    then found_detail dns_detail (get_dns_interaction i.id db)
    else (none, db)

unfoldable pub interaction_response : Runtime → Interaction → Db → InteractionResponse × Db
interaction_response rt i db =
    let (http, db1) = read_http rt i db in
    let (dns, db2) = read_dns i db1 in
    (
      record {
        id = i.id;
        kind = i.kind;
        occurred_at = rt.format_time i.occurred_at;
        remote_ip = i.remote_ip;
        remote_port = i.remote_port;
        tls = i.tls;
        summary = i.summary;
        http = http;
        dns = dns;
      },
      db2,
    )

-- The loop over the interactions.
unfoldable pub interaction_responses :
    Runtime → List Interaction → Db → List InteractionResponse × Db
interaction_responses rt [] db = ([], db)
interaction_responses rt (i ∷ is) db =
    let (ir, db1) = interaction_response rt i db in
    let (irs, db2) = interaction_responses rt is db1 in (ir ∷ irs, db2)

abbrev pub send_interactions : Str → List InteractionResponse × Db → Flow ⊥ × Db
send_interactions token_value (irs, db) =
    (returned (write_json 200 (get_interactions_response token_value irs)), db)

unfoldable pub handle_get_interactions : Runtime → Str → ℕ → Handler ⊥
handle_get_interactions rt token_value api_key_id = do
  tok ← owned_token token_value api_key_id
  interactions ← attempt (get_interactions_by_token tok.id) database_error
  λ db. send_interactions token_value (interaction_responses rt interactions db)

unfoldable pub handle_delete_token : Str → ℕ → Handler ⊥
handle_delete_token token_value api_key_id = do
  tok ← owned_token token_value api_key_id
  attempt (delete_token token_value) (error_json 500 "failed to delete token")
  reply (write_json 200 (delete_token_response true))

abbrev pub plugin_info : Interfaces.PluginInfo → PluginInfo
plugin_info p = record { id = p.id; type = p.type; enabled = p.enabled; config = p.config }

abbrev pub plugin_infos : Option (List Interfaces.PluginInfo) → List PluginInfo
plugin_infos none = []
plugin_infos (some ps) = map plugin_info ps

-- The argument is what `ListPlugins` returns, or `none` where there is no registry.
unfoldable pub handle_list_plugins : Option (List Interfaces.PluginInfo) → Handler ⊥
handle_list_plugins plugins = reply (write_json 200 (list_plugins_response (plugin_infos plugins)))
