-- ===== src/Client/Served.antt =====
-- The client of internal/client/client.go against the API server of internal/server/api.go. How the
-- multiplexer of the standard library matches a request to a route and what `json.NewEncoder`
-- writes are parameters; the network loses and changes nothing.
use oastrix.Plugins.Interfaces
use oastrix.Db.Tokens.Deletion.{without_token, delete_where-without_token}
use oastrix.Db.Tokens.{
  select_tokens, list_tokens_by_api_key, key_exists, find_token, owned_by, delete_where,
}
use oastrix.Server.Api.Handlers.{
  interaction_response, eof, value, label_ptr, payloads, token_info, handle_list_tokens,
  decode_label, ApiServer,
}
use oastrix.Client.{
  interactions_request, get_interactions, of_decoded, tokens_url, create_token, create_request_of,
  list_tokens, list_request, decoded, executed, HttpClient, parse_error, Request, HttpResponse,
  Called, Client, Codec, call, received, delete_token, delete_request, token_url, done, failed,
  server_error,
}
use oastrix.Prelude.{
  if◌then◌else◌, ◌∷◌, str_eq_iff, ◌==◌, suc, map, str_eq, arith, ap, false, ◌∙◌, ℕ, ◌≡◌, ◌≢◌, refl,
  Str, bytes, true, Option, none, some, [], ◌++◌, lookup, List,
}
use oastrix.Server.Api.Types.{
  get_interactions_response, create_token_response, list_tokens_response, delete_token_response,
  error_response, Body, Response, write_json,
}
use oastrix.Server.Api.Access.{token_not_found, authenticate, bearer, auth_middleware}
use oastrix.Server.Api.Access.Owner.{owns}
use oastrix.Server.Api.Flow.{go_on_next, returned, response_of}
use oastrix.Runtime.{Runtime}
use oastrix.Db.Interactions.{select_interactions}
use oastrix.Server.Api.Handlers.Listing.{handle_get_interactions-owned}
use oastrix.Token.{generate}
use oastrix.Db.Tokens.Laws.{token_row}
use oastrix.Server.Api.Handlers.Creation.{handle_create_token-created}
use oastrix.Db.{Db}
use oastrix.Models.{Token}
use oastrix.Db.ApiKeys.{get_api_key_by_prefix}
use oastrix.Server.Api.Handlers.Ownership.{foreign_token_not_found, handle_delete_token-owned}
use oastrix.Server.Api.Access.Auth.{Grants, authenticate_iff}
use oastrix.Server.Api.Routes.{Route, route, handler}

-- `r.Header.Get("Authorization")`
abbrev pub auth_header : Request → Str
auth_header req = elim (lookup (bytes "Authorization") req.headers) [ none ↦ [] | some v ↦ v ]

label_ptr-if : (label : Str) → label_ptr label ≡ (if str_eq label [] then none else some label)
unfolding str_eq
label_ptr-if [] = refl
label_ptr-if (c ∷ label) = refl

module _ (rt : Runtime) (s : ApiServer) (plugins : Option (List Interfaces.PluginInfo))
    (routed : Request → Route) (encode_body : Body → Str) where
  abbrev pub sent : Response → HttpResponse
  sent r = record { status_code = r.status; body = some (encode_body r.body) }

  abbrev pub answered : Response × Db → Option HttpResponse × Db
  answered (r, db) = (some (sent r), db)

  -- The server, as the client sees it.
  abbrev pub served : Request → Db → Option HttpResponse × Db
  served req db = answered (response_of (handler rt s plugins (routed req) (auth_header req) db))

  authenticate-db : (h : Str) (db : Db) → db.faults ≡ [] → (authenticate rt.sha256 h db).1 ≡ db
  unfolding authenticate get_api_key_by_prefix
  authenticate-db h db sound = ground arith

  granted-same :
      (r : Route) (h : Str) (db : Db) (key : ℕ)
      → db.faults ≡ []
      → Grants rt.sha256 db h key
      → handler rt s plugins r h db ≡ route rt s plugins r key db
  unfolding handler auth_middleware
  granted-same r h db key sound grants =
      let passed = (authenticate_iff rt.sha256 h db key sound).1 grants in
      let same = authenticate-db h db sound in
      go_on_next (authenticate rt.sha256 h db) (route rt s plugins r) key passed
      ∙ ap (route rt s plugins r key) same

  module _ (json : Codec) (c : Client Db) (key : ℕ) (db : Db) (direct : c.http_client ≡ served)
      (sound : db.faults ≡ []) (grants : Grants rt.sha256 db (bearer ++ c.api_key) key) where
    call-served :
        {A : Type 0} (req : Request) (decode : Option Str → Called A) (r : Response) (db' : Db)
        → json.valid_url req.url ≡ true
        → auth_header req ≡ bearer ++ c.api_key
        → route rt s plugins (routed req) key db ≡ (returned r, db')
        → call json c req decode db ≡ (received json c decode (sent r), db')
    unfolding call
    call-served req decode r db' valid header handled =
        let same = granted-same (routed req) (bearer ++ c.api_key) db key sound grants ∙ handled in
        let reply =
          ap (λ h. answered (response_of (handler rt s plugins (routed req) h db))) header
          ∙ ap (λ m. answered (response_of m)) same in
        rw (valid, call)
          (ap (λ (cl : HttpClient Db). executed json c decode (cl req db)) direct
            ∙ ap (executed json c decode) reply)

    -- The text of a response that is no success, as the client's error.
    refused-text :
        {A : Type 0} (decode : Option Str → Called A) (r : Response) (text : Str)
        → (r.status == 200) ≡ false
        → json.unmarshal_error (encode_body r.body) ≡ some text
        → text ≢ []
        → received json c decode (sent r) ≡ failed (server_error text)
    unfolding parse_error
    refused-text decode r text other found ne = ground (arith, str_eq_iff text [])

    -- A deletion that the client asks for with a key that is let in, on a server whose database works
    -- and enforces its foreign keys, where the URL is one, the multiplexer takes the request to the
    -- deletion of that token, and the token is stored and belongs to the key: it succeeds, and the
    -- database is left without the token, its interactions and its plugin configuration, and without
    -- the details and the attributes of these interactions, and else as it was.
    pub delete_token-owned :
        (v : Str) (t : Token)
        → json.valid_url (token_url c v) ≡ true
        → routed (delete_request c v) ≡ Route.delete_token v
        → v ≢ []
        → find_token v db.tokens ≡ some t
        → owned_by key t ≡ true
        → db.foreign_keys ≡ true
        → delete_token json c v db ≡ (done tt, without_token v db)
    unfolding delete_token route lookup str_eq
    delete_token-owned v t valid matched ne found mine enforced =
        call-served (delete_request c v) (λ body. done tt)
          (write_json 200 (delete_token_response true)) (delete_where v db) valid refl
          (rw matched (handle_delete_token-owned v key db t sound ne found mine))
        ∙ ap (λ d. (done tt, d)) (delete_where-without_token v db enforced)

    -- Where the token is not stored, or belongs to another key, the client gets the server's text
    -- as its error, the same for both, and the database stays as it was.
    pub delete_token-foreign :
        (v : Str)
        → json.valid_url (token_url c v) ≡ true
        → routed (delete_request c v) ≡ Route.delete_token v
        → json.unmarshal_error (encode_body (error_response "token not found"))
          ≡ some (bytes "token not found")
        → v ≢ []
        → owns db v key ≡ false
        → delete_token json c v db ≡ (failed (server_error (bytes "token not found")), db)
    unfolding delete_token route lookup str_eq
    delete_token-foreign v valid matched text ne foreign =
        call-served (delete_request c v) (λ body. done tt) token_not_found db valid refl
          (rw matched (foreign_token_not_found rt v key db sound ne foreign).1)
        ∙ ap (λ r. (r, db))
            (refused-text (λ body. done tt) token_not_found (bytes "token not found") refl text
              (λ e. cc))

    create_token-replied :
        (label body random_bytes tok : Str)
        → json.valid_url (tokens_url c) ≡ true
        → json.marshal_create label ≡ some body
        → routed (create_request_of c body)
          ≡ Route.create_token (some (value label, eof)) (some random_bytes)
        → json.decode_created (some (encode_body (create_token_response tok (payloads s tok))))
          ≡ some (record { token = tok; payloads = payloads s tok })
        → generate (some random_bytes) ≡ some tok
        → find_token tok db.tokens ≡ none
        → key_exists (some key) db.api_keys ≡ true
        → create_token json c label db ≡ (
          done (record { token = tok; payloads = payloads s tok }),
          record db {
            reads = suc db.reads;
            tokens = token_row tok (some key) (label_ptr label) db ∷ db.tokens;
            last_token = suc db.last_token;
          },
        )
    unfolding create_token route lookup str_eq decode_label
    create_token-replied label body random_bytes tok valid written matched read made new stored =
        let stored_db = record db {
          reads = suc db.reads;
          tokens = token_row tok (some key) (label_ptr label) db ∷ db.tokens;
          last_token = suc db.last_token;
        } in
        rw (written, create_token)
          (call-served (create_request_of c body) (decoded json c json.decode_created)
              (write_json 200 (create_token_response tok (payloads s tok))) stored_db valid refl
              (rw matched (
                handle_create_token-created s (some (value label, eof)) random_bytes tok label key
                  db sound refl made new stored))
            ∙ ap (λ o. (of_decoded o, stored_db)) read)

    -- A creation that the client asks for with a key that is let in and stored, on a server whose
    -- database works, where the URL is one, the multiplexer takes the request to the creation, the
    -- random value is not a token yet and JSON carries the label and the response: the client
    -- returns that value with the payloads of the server, and one token is stored, with that value,
    -- owned by the key, and with the label, or with none where the label is empty.
    pub create_token-served :
        (label body random_bytes tok : Str)
        → json.valid_url (tokens_url c) ≡ true
        → json.marshal_create label ≡ some body
        → routed (create_request_of c body)
          ≡ Route.create_token (some (value label, eof)) (some random_bytes)
        → json.decode_created (some (encode_body (create_token_response tok (payloads s tok))))
          ≡ some (record { token = tok; payloads = payloads s tok })
        → generate (some random_bytes) ≡ some tok
        → find_token tok db.tokens ≡ none
        → key_exists (some key) db.api_keys ≡ true
        → create_token json c label db ≡ (
          done (record { token = tok; payloads = payloads s tok }),
          record db {
            reads = suc db.reads;
            tokens =
                token_row tok (some key) (if str_eq label [] then none else some label) db
                ∷ db.tokens;
            last_token = suc db.last_token;
          },
        )
    create_token-served label body random_bytes tok valid written matched read made new stored =
        create_token-replied label body random_bytes tok valid written matched read made new stored
        ∙ ap
            (λ l. (
              done (record { token = tok; payloads = payloads s tok }),
              record db {
                reads = suc db.reads;
                tokens = token_row tok (some key) l db ∷ db.tokens;
                last_token = suc db.last_token;
              },
            ))
            (label_ptr-if label)

    -- A listing that the client asks for with a key that is let in, on a server whose database works
    -- and where JSON carries the response, gives the tokens of that key.
    pub list_tokens-served :
        json.valid_url (tokens_url c) ≡ true
        → routed (list_request c) ≡ Route.list_tokens
        → let infos = map (token_info rt.format_time) (select_tokens key db) in
          json.decode_list (some (encode_body (list_tokens_response infos)))
            ≡ some (record { tokens = infos })
          → list_tokens json c db ≡ (done (record { tokens = infos }), db)
    unfolding list_tokens route lookup str_eq handle_list_tokens list_tokens_by_api_key
    list_tokens-served valid matched read =
        let infos = map (token_info rt.format_time) (select_tokens key db) in
        call-served (list_request c) (decoded json c json.decode_list)
          (write_json 200 (list_tokens_response infos)) db valid refl (rw matched (ground arith))
        ∙ ap (λ o. (of_decoded o, db)) read

    -- The interactions of a token of the key that is let in, on a server whose database works and
    -- where JSON carries the response: the client gets all of them, as the API shows them.
    pub get_interactions-served :
        (v : Str) (t : Token)
        → json.valid_url (token_url c v ++ bytes "/interactions") ≡ true
        → routed (interactions_request c v) ≡ Route.get_interactions v
        → v ≢ []
        → find_token v db.tokens ≡ some t
        → owned_by key t ≡ true
        → let shown = map (λ i. (interaction_response rt i db).0) (select_interactions t.id db) in
          json.decode_interactions (some (encode_body (get_interactions_response v shown)))
            ≡ some (record { token = v; interactions = shown })
          → get_interactions json c v db ≡ (done (record { token = v; interactions = shown }), db)
    unfolding get_interactions route lookup str_eq
    get_interactions-served v t valid matched ne found mine read =
        let shown = map (λ i. (interaction_response rt i db).0) (select_interactions t.id db) in
        call-served (interactions_request c v) (decoded json c json.decode_interactions)
          (write_json 200 (get_interactions_response v shown)) db valid refl
          (rw matched (handle_get_interactions-owned rt v key db t sound ne found mine))
        ∙ ap (λ o. (of_decoded o, db)) read
