-- ===== src/Tests/Access.antt =====
-- Requests to the API: with the stored key, with a key that was made, by the owner of the token
-- and by another.
use oastrix.Prelude.{
  ℕ, ◌≡◌, ◌↔◌, ◌⊎◌, refl, Str, Bool, true, false, some, List, [], ◌∷◌, ◌++◌, str_eq,
}
use oastrix.Failure.{ok}
use oastrix.Auth.{alphanumeric_at, join_key}
use oastrix.Db.{Db}
use oastrix.Db.ApiKeys.{create_api_key, find_api_key}
use oastrix.Db.Tokens.{find_token}
use oastrix.Server.Api.Flow.{returned, next}
use oastrix.Server.Api.Access.{authenticate, auth_middleware, bearer, unauthorized, token_not_found}
use oastrix.Server.Api.Access.Auth.{
  Grants, authenticate_iff, auth_middleware_cases, authenticate-generate_api_key,
}
use oastrix.Server.Api.Access.Owner.{owns}
use oastrix.Server.Api.Handlers.{handle_list_tokens, handle_get_interactions, handle_delete_token}
use oastrix.Server.Api.Handlers.Ownership.{foreign_token_not_found}
use oastrix.Tests.Data.{
  prefix_bytes, secret_raw, made_key, made, rt, tok, token_row, prefix, secret, db,
}

abbrev auth_header : Str
auth_header = bearer ++ join_key prefix secret

authenticate_iff_example :
    ((authenticate rt.sha256 auth_header db).0 ≡ next 1) ↔ Grants rt.sha256 db auth_header 1
authenticate_iff_example = authenticate_iff rt.sha256 auth_header db 1 refl

abbrev faulty : Db
faulty = record db { faults = false ∷ true ∷ [] }

auth_middleware_cases_example :
    (fs : List Bool) × ((auth_middleware rt.sha256 (handle_list_tokens rt) auth_header faulty
        ≡ (returned unauthorized, record faulty { faults = fs }))
      ⊎ ((id : ℕ) × ((authenticate rt.sha256 auth_header faulty).0 ≡ next id)
          × (auth_middleware rt.sha256 (handle_list_tokens rt) auth_header faulty
              ≡ handle_list_tokens rt id (record faulty { faults = fs }))))
auth_middleware_cases_example =
    auth_middleware_cases rt.sha256 (handle_list_tokens rt) auth_header faulty

abbrev db_with_key : Db
db_with_key = (create_api_key made_key.prefix made_key.hash db).1

created : create_api_key made_key.prefix made_key.hash db ≡ (ok 2, db_with_key)
unfolding create_api_key find_api_key str_eq alphanumeric_at
created = refl

authenticate-generate_api_key_example :
    (authenticate rt.sha256 (bearer ++ made_key.display_key) db_with_key).0 ≡ next 2
authenticate-generate_api_key_example =
    authenticate-generate_api_key rt.sha256 prefix_bytes secret_raw made_key db db_with_key 2 refl
      made refl created

foreign : owns db tok 2 ≡ false
unfolding find_token str_eq
foreign = refl

foreign_token_not_found_example :
    (handle_get_interactions rt tok 2 db ≡ (returned token_not_found, db))
    × (handle_delete_token tok 2 db ≡ (returned token_not_found, db))
foreign_token_not_found_example = foreign_token_not_found rt tok 2 db refl (λ e. cc) foreign

stored : find_token tok db.tokens ≡ some token_row
unfolding find_token str_eq
stored = refl
