-- ===== src/Server/Api/Routes/Integrity.antt =====
-- Referential integrity and the API: internal/server/api.go.
use oastrix.Db.Tokens
use oastrix.Plugins.Interfaces
use oastrix.Prelude.{
  if_both, ℕ, sym, subst, Str, Option, none, some, List, [], ◌∷◌, str_eq, inl, inr,
}
use oastrix.Failure.{Result, ok, err}
use oastrix.Models.{Interaction}
use oastrix.Events.{kind_http, kind_dns}
use oastrix.Runtime.{Runtime}
use oastrix.Token.{generate}
use oastrix.Db.{Db, Exec, pure, statement}
use oastrix.Db.Tokens.{list_tokens_by_api_key, select_tokens}
use oastrix.Db.Interactions.{
  get_interactions_by_token, select_interactions, get_http_interaction, get_dns_interaction,
  find_http, find_dns,
}
use oastrix.Db.Integrity.{IsWellFormed}
use oastrix.Db.Integrity.Creation.{
  statement-IsWellFormed, moved-IsWellFormed, create_token-IsWellFormed,
}
use oastrix.Db.Integrity.Deletion.{delete_token-IsWellFormed}
use oastrix.Server.Api.Types.{Response, error_json}
use oastrix.Server.Api.Flow.{Flow, present, attempt, go_on-keeps, on_error-db}
use oastrix.Server.Api.Access.{owned_token, database_error}
use oastrix.Server.Api.Access.Auth.{auth_middleware_cases}
use oastrix.Server.Api.Access.Owner.{owned_token-reads}
use oastrix.Server.Api.Handlers.{
  ApiServer, Decoded, decode_label, label_ptr, found_detail, http_detail, dns_detail, read_http,
  read_dns, interaction_response, interaction_responses, handle_create_token, handle_list_tokens,
  handle_get_interactions, handle_delete_token, handle_list_plugins,
}
use oastrix.Server.Api.Handlers.Creation.{decode_label-db}
use oastrix.Server.Api.Routes.{
  Route, create_token, list_tokens, get_interactions, delete_token, list_plugins, route, handler,
}

-- A statement that only reads.
reading-IsWellFormed :
    {A : Type 0} (f : Db → A) (db : Db)
    → IsWellFormed db
    → IsWellFormed (statement (λ d. pure (f d) d) db).1
reading-IsWellFormed f db w =
    statement-IsWellFormed (λ d. pure (f d) d) db (λ fs. moved-IsWellFormed db db.reads fs w) w

attempt-IsWellFormed :
    {A : Type 0} (m : Exec A) (r : Response) (db : Db)
    → IsWellFormed (m db).1
    → IsWellFormed (attempt m r db).1
attempt-IsWellFormed m r db w = rw (on_error-db (m db) r) w

present-IsWellFormed :
    {A : Type 0} (o : Option A) (r : Response) (db : Db)
    → IsWellFormed db
    → IsWellFormed (present o r db).1
present-IsWellFormed none r db w = w
present-IsWellFormed (some a) r db w = w

found_detail-IsWellFormed :
    {A B : Type 0} (f : A → B) (m : Result (Option A) × Db)
    → IsWellFormed m.1
    → IsWellFormed (found_detail f m).1
found_detail-IsWellFormed f (ok (some a), db) w = w
found_detail-IsWellFormed f (ok none, db) w = w
found_detail-IsWellFormed f (err e, db) w = w

read_http-IsWellFormed :
    (rt : Runtime) (i : Interaction) (db : Db)
    → IsWellFormed db
    → IsWellFormed (read_http rt i db).1
unfolding read_http get_http_interaction
read_http-IsWellFormed rt i db w =
    if_both (λ m. IsWellFormed m.1) (str_eq i.kind kind_http)
      (found_detail (http_detail rt) (get_http_interaction i.id db)) (none, db)
      (found_detail-IsWellFormed (http_detail rt) (get_http_interaction i.id db)
        (reading-IsWellFormed (λ d. find_http i.id d.http_interactions) db w))
      w

read_dns-IsWellFormed :
    (i : Interaction) (db : Db) → IsWellFormed db → IsWellFormed (read_dns i db).1
unfolding read_dns get_dns_interaction
read_dns-IsWellFormed i db w =
    if_both (λ m. IsWellFormed m.1) (str_eq i.kind kind_dns)
      (found_detail dns_detail (get_dns_interaction i.id db)) (none, db)
      (found_detail-IsWellFormed dns_detail (get_dns_interaction i.id db)
        (reading-IsWellFormed (λ d. find_dns i.id d.dns_interactions) db w))
      w

interaction_responses-IsWellFormed :
    (rt : Runtime) (is : List Interaction) (db : Db)
    → IsWellFormed db
    → IsWellFormed (interaction_responses rt is db).1
unfolding interaction_responses interaction_response
interaction_responses-IsWellFormed rt [] db w = w
interaction_responses-IsWellFormed rt (i ∷ is) db w =
    interaction_responses-IsWellFormed rt is _
      (read_dns-IsWellFormed i _ (read_http-IsWellFormed rt i db w))

owned_token-IsWellFormed :
    (v : Str) (key : ℕ) (db : Db) → IsWellFormed db → IsWellFormed (owned_token v key db).1
owned_token-IsWellFormed v key db w =
    subst IsWellFormed (sym (owned_token-reads v key db))
      (moved-IsWellFormed db db.reads (owned_token v key db).1.faults w)

handle_list_tokens-IsWellFormed :
    (rt : Runtime) (key : ℕ) (db : Db)
    → IsWellFormed db
    → IsWellFormed (handle_list_tokens rt key db).1
unfolding handle_list_tokens list_tokens_by_api_key
handle_list_tokens-IsWellFormed rt key db w =
    go_on-keeps IsWellFormed (attempt (list_tokens_by_api_key key) database_error db) _
      (attempt-IsWellFormed (list_tokens_by_api_key key) database_error db
        (reading-IsWellFormed (select_tokens key) db w))
      (λ ts e d h. h)

handle_get_interactions-IsWellFormed :
    (rt : Runtime) (v : Str) (key : ℕ) (db : Db)
    → IsWellFormed db
    → IsWellFormed (handle_get_interactions rt v key db).1
unfolding handle_get_interactions get_interactions_by_token
handle_get_interactions-IsWellFormed rt v key db w =
    go_on-keeps IsWellFormed (owned_token v key db) _ (owned_token-IsWellFormed v key db w)
      (λ tok e d h.
        go_on-keeps IsWellFormed (attempt (get_interactions_by_token tok.id) database_error d) _
          (attempt-IsWellFormed (get_interactions_by_token tok.id) database_error d
            (reading-IsWellFormed (select_interactions tok.id) d h))
          (λ is e' d' h'. interaction_responses-IsWellFormed rt is d' h'))

handle_create_token-IsWellFormed :
    (s : ApiServer) (body : Option (Decoded Str × Decoded (Unit {0}))) (random_read : Option Str)
    (key : ℕ) (db : Db)
    → IsWellFormed db
    → IsWellFormed (handle_create_token s body random_read key db).1
unfolding handle_create_token
handle_create_token-IsWellFormed s body random_read key db w =
    go_on-keeps IsWellFormed (decode_label body db) _
      (subst IsWellFormed (sym (decode_label-db body db)) w)
      (λ label e d h.
        go_on-keeps IsWellFormed
          (present (generate random_read) (error_json 500 "failed to generate token") d) _
          (present-IsWellFormed (generate random_read) _ d h)
          (λ tok e' d' h'.
            go_on-keeps IsWellFormed
              (attempt (Tokens.create_token tok (some key) (label_ptr label))
                (error_json 500 "failed to create token") d')
              _
              (attempt-IsWellFormed (Tokens.create_token tok (some key) (label_ptr label)) _ d'
                (create_token-IsWellFormed tok (some key) (label_ptr label) d' h'))
              (λ id e'' d'' h''. h'')))

handle_delete_token-IsWellFormed :
    (v : Str) (key : ℕ) (db : Db) → IsWellFormed db → IsWellFormed (handle_delete_token v key db).1
unfolding handle_delete_token
handle_delete_token-IsWellFormed v key db w =
    go_on-keeps IsWellFormed (owned_token v key db) _ (owned_token-IsWellFormed v key db w)
      (λ tok e d h.
        go_on-keeps IsWellFormed
          (attempt (Tokens.delete_token v) (error_json 500 "failed to delete token") d) _
          (attempt-IsWellFormed (Tokens.delete_token v) _ d (delete_token-IsWellFormed v d h))
          (λ u e' d' h'. h'))

module _ (rt : Runtime) (s : ApiServer) (plugins : Option (List Interfaces.PluginInfo)) where
  route-IsWellFormed :
      (r : Route) (key : ℕ) (db : Db)
      → IsWellFormed db
      → IsWellFormed (route rt s plugins r key db).1
  unfolding route handle_list_plugins
  route-IsWellFormed (create_token body random_read) key db w =
      handle_create_token-IsWellFormed s body random_read key db w
  route-IsWellFormed list_tokens key db w = handle_list_tokens-IsWellFormed rt key db w
  route-IsWellFormed (get_interactions v) key db w =
      handle_get_interactions-IsWellFormed rt v key db w
  route-IsWellFormed (delete_token v) key db w = handle_delete_token-IsWellFormed v key db w
  route-IsWellFormed list_plugins key db w = w

  -- Whatever request the API gets, and whatever statements the engine fails, it keeps the
  -- referential integrity of the database.
  pub handler-IsWellFormed :
      (r : Route) (auth_header : Str) (db : Db)
      → IsWellFormed db
      → IsWellFormed (handler rt s plugins r auth_header db).1
  unfolding handler
  handler-IsWellFormed r auth_header db w =
      let (fs, cases) = auth_middleware_cases rt.sha256 (route rt s plugins r) auth_header db in
      let kept = moved-IsWellFormed db db.reads fs w in
      elim cases [
        | inl denied ↦ subst (λ (m : Flow ⊥ × Db). IsWellFormed m.1) (sym denied) kept
        | inr (key, granted, same) ↦
            subst (λ (m : Flow ⊥ × Db). IsWellFormed m.1) (sym same)
              (route-IsWellFormed r key (record db { faults = fs }) kept)
      ]
