-- ===== src/Tests/Client.antt =====
-- The client with the stored key, over the API server, and its commands.
use oastrix.Db.Tokens.Laws
use oastrix.Db.Tokens.Deletion.{without_token}
use oastrix.Prelude.{
  map, trim_prefix, index_byte, if◌then◌else◌, ◌++◌, ◌≡◌, ◌↔◌, refl, Str, bytes, Bool, true, none,
  some, [], ◌∷◌, str_eq, has_prefix, List,
}
use oastrix.Auth.{join_key, parse_api_key, parse_rest, is_alphanumeric, verify_api_key, hash_secret}
use oastrix.Db.ApiKeys.{get_api_key_by_prefix, find_api_key}
use oastrix.Token.{charset_at, generate}
use oastrix.Db.{Db}
use oastrix.Db.Tokens.{find_token}
use oastrix.Server.Api.Types.{Body, InteractionResponse}
use oastrix.Server.Api.Access.{authenticate, bearer}
use oastrix.Server.Api.Access.Auth.{Grants, authenticate_iff}
use oastrix.Server.Api.Flow.{next}
use oastrix.Server.Api.Handlers.{value, eof, payloads}
use oastrix.Server.Api.Routes.{Route}
use oastrix.Client.{
  Client, Codec, Request, CreateTokenResponse, done, delete_token, create_token, list_tokens,
  get_interactions,
}
use oastrix.Client.Served.{served, delete_token-owned, create_token-served}
use oastrix.Client.Seen.{listing, get_interactions-recorded}
use oastrix.Server.Api.Handlers.Listing.{Within}
use oastrix.Server.Http.{serve_http}
use oastrix.Cmd.Server.HttpRecording.{http_server}
use oastrix.Cmd.Server.ReadBack.{shown}
use oastrix.Tests.Data.{
  domain, ip, request, host, valid_host, carried, db-IsWellFormed, rt, tok, token_row, prefix,
  secret, db, server, random_bytes,
}
use oastrix.Cmd.Client.{
  Indent, ClientConfig, new_config_client, run_list, run_generate, run_interactions, run_delete,
  exit_code,
}
use oastrix.Cmd.Client.Laws.{Printed, exit_code_iff}

abbrev made_token : Str
made_token = map charset_at random_bytes

-- Every body has the same text, which decodes to the token that is made.
abbrev created : CreateTokenResponse
created = record { token = made_token; payloads = payloads server made_token }

abbrev json : Codec
json = record {
  valid_url = λ url. true;
  marshal_create = λ label. some label;
  decode_created = λ body. some created;
  decode_interactions = λ body. none;
  decode_list = λ body. none;
  unmarshal_error = λ text. none;
}

abbrev label : Str
label = bytes "probe"

abbrev routed : Request → Route
routed req =
    if str_eq req.method (bytes "DELETE")
    then Route.delete_token tok
    else Route.create_token (some (value label, eof)) (some random_bytes)

abbrev encode_body : Body → Str
encode_body b = []

abbrev client : Client Db
client = record {
  base_url = bytes "https://oast.example:8443";
  api_key = join_key prefix secret;
  http_client = served rt server none routed encode_body;
}

granted : (authenticate rt.sha256 (bearer ++ client.api_key) db).0 ≡ next 1
unfolding authenticate str_eq has_prefix parse_api_key trim_prefix parse_rest index_byte
    is_alphanumeric get_api_key_by_prefix find_api_key verify_api_key hash_secret
granted = refl

grants : Grants rt.sha256 db (bearer ++ client.api_key) 1
grants = (authenticate_iff rt.sha256 (bearer ++ client.api_key) db 1 refl).0 granted

stored : find_token tok db.tokens ≡ some token_row
unfolding find_token str_eq
stored = refl

delete_token-owned_example : delete_token json client tok db ≡ (done tt, without_token tok db)
unfolding str_eq
delete_token-owned_example =
    delete_token-owned rt server none routed encode_body json client 1 db refl refl grants tok
      token_row refl refl (λ e. cc) stored refl refl

drawn : generate (some random_bytes) ≡ some made_token
unfolding generate
drawn = refl

new : find_token made_token db.tokens ≡ none
unfolding find_token str_eq charset_at
new = refl

create_token-served_example : create_token json client label db ≡ (
  done created,
  record db {
    reads = 1;
    tokens = Laws.token_row made_token (some 1) (some label) db ∷ db.tokens;
    last_token = 2;
  },
)
unfolding str_eq
create_token-served_example =
    create_token-served rt server none routed encode_body json client 1 db refl refl grants label
      label random_bytes made_token refl refl refl refl drawn new refl

abbrev routed_read : Request → Route
routed_read req = Route.get_interactions tok

-- What the API lists after the request of the tests.
abbrev listed : List InteractionResponse
listed =
    listing rt server none routed_read encode_body json client domain ip (request host) tok db
      token_row

-- Every body decodes to that list.
abbrev reader : Codec
reader = record json {
  decode_interactions = λ body. some (record { token = tok; interactions = listed });
}

abbrev reading : Client Db
reading = record client { http_client = served rt server none routed_read encode_body }

get_interactions-recorded_example :
    let db' = (serve_http (λ r. none) (http_server rt domain ip) (request host) db).1 in
    (irs : List InteractionResponse) × (get_interactions reader reading tok db'
      ≡ (done (record { token = tok; interactions = irs }), db'))
    × Within (shown rt domain ip (request host) tok db) irs
get_interactions-recorded_example =
    get_interactions-recorded rt server none routed_read encode_body reader reading domain ip
      (request host) tok db (λ r. none) token_row 1 refl valid_host carried (λ e. cc) refl
      db-IsWellFormed stored refl grants refl refl refl refl

-- What is printed is kept nowhere.
abbrev indent : Indent
indent = record {
  created = λ r. some r.token;
  interactions = λ r. some r.token;
  listed = λ r. some [];
  deletion = λ r. some r.token;
}

abbrev config : ClientConfig
config = record { api_key = client.api_key; api_url = client.base_url }

abbrev print : Str → Db → Bool × Db
print text w = (true, w)

exit_code_iff_example :
    let c = new_config_client client.http_client config in
    ((exit_code (run_list client.http_client json indent print config db).0 ≡ 0)
      ↔ Printed print c
          (list_tokens json)
          indent.listed
          db
          (run_list client.http_client json indent print config db).1)
    × ((exit_code (run_generate client.http_client json indent print config tok db).0 ≡ 0)
        ↔ Printed print c
            (λ cl. create_token json cl tok)
            indent.created
            db
            (run_generate client.http_client json indent print config tok db).1)
    × ((exit_code (run_interactions client.http_client json indent print config tok db).0 ≡ 0)
        ↔ Printed print c
            (λ cl. get_interactions json cl tok)
            indent.interactions
            db
            (run_interactions client.http_client json indent print config tok db).1)
    × ((exit_code (run_delete client.http_client json indent print config tok db).0 ≡ 0)
        ↔ Printed print c
            (λ cl. delete_token json cl tok)
            (λ u. indent.deletion (record { token = tok; deleted = true }))
            db
            (run_delete client.http_client json indent print config tok db).1)
exit_code_iff_example = exit_code_iff client.http_client json indent print config tok db
