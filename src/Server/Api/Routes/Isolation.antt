-- ===== src/Server/Api/Routes/Isolation.antt =====
-- Requests of one API key and tokens of another: internal/server/api.go.
use oastrix.Db.Tokens
use oastrix.Plugins.Interfaces
use oastrix.Prelude.{
  ℕ, ◌≡◌, refl, ◌∙◌, ap, Str, Bool, true, false, Option, none, some, List, [], ◌∷◌, arith,
  if◌then◌else◌, str_eq, str_eq_iff, inl, inr,
}
use oastrix.Models.{Token, Interaction}
use oastrix.Runtime.{Runtime}
use oastrix.Db.{Db, Exec, pure, run_or_fail}
use oastrix.Db.Tokens.{find_token, owned_by, list_tokens_by_api_key, get_token_by_value}
use oastrix.Db.Tokens.Laws.{find_token-delete_where}
use oastrix.Db.Interactions.{get_interactions_by_token, get_http_interaction, get_dns_interaction}
use oastrix.Server.Api.Flow.{Flow, next, present, attempt, go_on-keeps, on_error-db}
use oastrix.Server.Api.Access.{authenticate, owned_token, database_error}
use oastrix.Server.Api.Access.Auth.{auth_middleware_cases}
use oastrix.Server.Api.Access.Owner.{owned_token-reads, owned_token_sound}
use oastrix.Server.Api.Handlers.{
  ApiServer, Decoded, read_http, read_dns, interaction_response, interaction_responses,
  decode_label, label_ptr, handle_create_token, handle_list_tokens, handle_get_interactions,
  handle_delete_token, handle_list_plugins,
}
use oastrix.Token.{generate}
use oastrix.Server.Api.Types.{Response, error_json}
use oastrix.Server.Api.Handlers.Creation.{decode_label-db}
use oastrix.Server.Api.Routes.{
  Route, create_token, list_tokens, get_interactions, delete_token, list_plugins, route, handler,
}

handle_list_tokens-tokens :
    (rt : Runtime) (key : ℕ) (db : Db) → (handle_list_tokens rt key db).1.tokens ≡ db.tokens
unfolding handle_list_tokens list_tokens_by_api_key
handle_list_tokens-tokens rt key db = ground arith

read_http-tokens :
    (rt : Runtime) (i : Interaction) (db : Db) → (read_http rt i db).1.tokens ≡ db.tokens
unfolding read_http get_http_interaction
read_http-tokens rt i db = ground arith

read_dns-tokens : (i : Interaction) (db : Db) → (read_dns i db).1.tokens ≡ db.tokens
unfolding read_dns get_dns_interaction
read_dns-tokens i db = ground arith

interaction_responses-tokens :
    (rt : Runtime) (is : List Interaction) (db : Db)
    → (interaction_responses rt is db).1.tokens ≡ db.tokens
unfolding interaction_responses interaction_response
interaction_responses-tokens rt [] db = refl
interaction_responses-tokens rt (i ∷ is) db =
    interaction_responses-tokens rt is _ ∙ read_dns-tokens i _ ∙ read_http-tokens rt i db

get_interactions_by_token-tokens :
    (id : ℕ) (r : Response) (db : Db)
    → (attempt (get_interactions_by_token id) r db).1.tokens ≡ db.tokens
unfolding get_interactions_by_token
get_interactions_by_token-tokens id r db = ground arith

owned_token-tokens : (v : Str) (key : ℕ) (db : Db) → (owned_token v key db).1.tokens ≡ db.tokens
owned_token-tokens v key db = ap (λ (d : Db). d.tokens) (owned_token-reads v key db)

handle_get_interactions-tokens :
    (rt : Runtime) (v : Str) (key : ℕ) (db : Db)
    → (handle_get_interactions rt v key db).1.tokens ≡ db.tokens
unfolding handle_get_interactions
handle_get_interactions-tokens rt v key db =
    go_on-keeps (λ d. d.tokens ≡ db.tokens) (owned_token v key db) _ (owned_token-tokens v key db)
      (λ tok e d h.
        go_on-keeps (λ d'. d'.tokens ≡ db.tokens)
          (attempt (get_interactions_by_token tok.id) database_error d) _
          (get_interactions_by_token-tokens tok.id database_error d ∙ h)
          (λ is e' d' h'. interaction_responses-tokens rt is d' ∙ h'))

create_token-keeps :
    (tok : Str) (key : Option ℕ) (label : Option Str) (r : Response) (db : Db) (v : Str) (t : Token)
    → find_token v db.tokens ≡ some t
    → find_token v (attempt (Tokens.create_token tok key label) r db).1.tokens ≡ some t
unfolding Tokens.create_token find_token
create_token-keeps tok key label r db v t found = ground (arith, str_eq_iff tok v)

handle_create_token-keeps :
    (s : ApiServer) (body : Option (Decoded Str × Decoded (Unit {0}))) (random_read : Option Str)
    (key : ℕ) (db : Db) (v : Str) (t : Token)
    → find_token v db.tokens ≡ some t
    → find_token v (handle_create_token s body random_read key db).1.tokens ≡ some t
unfolding handle_create_token
handle_create_token-keeps s body random_read key db v t found =
    let P = λ (d : Db). find_token v d.tokens ≡ some t in
    go_on-keeps P (decode_label body db) _
      (ap (λ (d : Db). find_token v d.tokens) (decode_label-db body db) ∙ found)
      (λ label e d h.
        go_on-keeps P (present (generate random_read) (error_json 500 "failed to generate token") d)
          _ (ground arith)
          (λ tok e' d' h'.
            go_on-keeps P
              (attempt (Tokens.create_token tok (some key) (label_ptr label))
                (error_json 500 "failed to create token") d')
              _ (create_token-keeps tok (some key) (label_ptr label) _ d' v t h')
              (λ id e'' d'' h''. h'')))

delete_token-keeps :
    (token : Str) (r : Response) (db : Db) (v : Str) (t : Token)
    → str_eq token v ≡ false
    → find_token v db.tokens ≡ some t
    → find_token v (attempt (Tokens.delete_token token) r db).1.tokens ≡ some t
unfolding Tokens.delete_token
delete_token-keeps token r db v t other found =
    ap (λ (d : Db). find_token v d.tokens) (on_error-db (run_or_fail db.faults run db) r)
    ∙ go db.faults
  where
    run : Exec (Unit {0})
    run = λ d. pure tt (Tokens.delete_where token d)

    kept :
        (d : Db) → d.tokens ≡ db.tokens → find_token v (Tokens.delete_where token d).tokens ≡ some t
    kept d same =
        find_token-delete_where token v d
        ∙ ap (λ b. if b then none else find_token v d.tokens) other
        ∙ ap (find_token v) same
        ∙ found

    go : (fs : List Bool) → find_token v (run_or_fail fs run db).1.tokens ≡ some t
    go [] = kept db refl
    go (true ∷ fs) = found
    go (false ∷ fs) = kept (record db { faults = fs }) refl

handle_delete_token-keeps :
    (token : Str) (key : ℕ) (db : Db) (v : Str) (t : Token)
    → find_token v db.tokens ≡ some t
    → owned_by key t ≡ false
    → find_token v (handle_delete_token token key db).1.tokens ≡ some t
unfolding handle_delete_token
handle_delete_token-keeps token key db v t found foreign =
    let P = λ (d : Db). find_token v d.tokens ≡ some t in
    go_on-keeps P (owned_token token key db) _
      (ap (λ ts. find_token v ts) (owned_token-tokens token key db) ∙ found)
      (λ tok e d h.
        let (there, mine) = owned_token_sound token key db tok e in
        let other : str_eq token v ≡ false = ground (arith, str_eq_iff token v) in
        go_on-keeps P
          (attempt (Tokens.delete_token token) (error_json 500 "failed to delete token") d) _
          (delete_token-keeps token _ d v t other h) (λ u e' d' h'. h'))

route-keeps :
    (rt : Runtime) (s : ApiServer) (plugins : Option (List Interfaces.PluginInfo)) (r : Route)
    (key : ℕ) (db : Db) (v : Str) (t : Token)
    → find_token v db.tokens ≡ some t
    → owned_by key t ≡ false
    → find_token v (route rt s plugins r key db).1.tokens ≡ some t
unfolding route handle_list_plugins
route-keeps rt s plugins (create_token body random_read) key db v t found foreign =
    handle_create_token-keeps s body random_read key db v t found
route-keeps rt s plugins list_tokens key db v t found foreign =
    ap (λ ts. find_token v ts) (handle_list_tokens-tokens rt key db) ∙ found
route-keeps rt s plugins (get_interactions token) key db v t found foreign =
    ap (λ ts. find_token v ts) (handle_get_interactions-tokens rt token key db) ∙ found
route-keeps rt s plugins (delete_token token) key db v t found foreign =
    handle_delete_token-keeps token key db v t found foreign
route-keeps rt s plugins list_plugins key db v t found foreign = found

-- A stored token is found as it was after any request to the API, whatever its header, and
-- whatever statements the engine fails, unless the request is let in for the API key that owns
-- the token: a request with no key or another key cannot change or delete it.
pub handler-keeps :
    (rt : Runtime) (s : ApiServer) (plugins : Option (List Interfaces.PluginInfo)) (r : Route)
    (auth_header : Str) (db : Db) (v : Str) (t : Token)
    → find_token v db.tokens ≡ some t
    → ((key : ℕ) → (authenticate rt.sha256 auth_header db).0 ≡ next key → owned_by key t ≡ false)
    → find_token v (handler rt s plugins r auth_header db).1.tokens ≡ some t
unfolding handler
handler-keeps rt s plugins r auth_header db v t found foreign =
    let (fs, cases) = auth_middleware_cases rt.sha256 (route rt s plugins r) auth_header db in
    elim cases [
      | inl denied ↦ ap (λ (m : Flow ⊥ × Db). find_token v m.1.tokens) denied ∙ found
      | inr (key, granted, same) ↦
          ap (λ (m : Flow ⊥ × Db). find_token v m.1.tokens) same
          ∙ route-keeps rt s plugins r key (record db { faults = fs }) v t found
              (foreign key granted)
    ]
