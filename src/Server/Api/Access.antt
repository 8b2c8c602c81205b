-- ===== src/Server/Api/Access.antt =====
-- Who may do what: `AuthMiddleware` of internal/server/api.go, and the checks that a token belongs
-- to the API key.
pub mod Auth
pub mod Owner
use oastrix.Server.Api.Flow.{next, Handler, ◌>>=◌, ◌>>◌, guard, present, attempt}
use oastrix.Prelude.{ℕ, Str, bytes, not, [], str_eq, has_prefix, trim_prefix, is_some}
use oastrix.Models.{Token}
use oastrix.Auth.{parse_api_key, verify_api_key}
use oastrix.Db.ApiKeys.{get_api_key_by_prefix}
use oastrix.Db.Tokens.{get_token_by_value, owned_by}
use oastrix.Server.Api.Types.{Response, error_json}

abbrev pub database_error : Response
database_error = error_json 500 "database error"

abbrev pub token_not_found : Response
token_not_found = error_json 404 "token not found"

abbrev pub unauthorized : Response
unauthorized = error_json 401 "unauthorized"

abbrev pub bearer : Str
bearer = bytes "Bearer "

-- `AuthMiddleware` up to the call of the next handler: the ID of the API key.
unfoldable pub authenticate : (Str → Str) → Str → Handler ℕ
authenticate sha256 auth_header = do
  guard (not (str_eq auth_header [])) unauthorized
  guard (has_prefix auth_header bearer) unauthorized
  let api_key = trim_prefix auth_header bearer
  parts ← present (parse_api_key api_key) unauthorized
  found ← attempt (get_api_key_by_prefix parts.0) unauthorized
  stored_key ← present found unauthorized
  guard (not (is_some stored_key.revoked_at)) unauthorized
  guard (verify_api_key sha256 api_key stored_key.key_hash) unauthorized
  λ db. (next stored_key.id, db)

unfoldable pub auth_middleware : (Str → Str) → (ℕ → Handler ⊥) → Str → Handler ⊥
auth_middleware sha256 next_handler auth_header = do
  api_key_id ← authenticate sha256 auth_header
  next_handler api_key_id

-- The statements that `handleGetInteractions` and `handleDeleteToken` begin with: the token, if it
-- belongs to the API key.
unfoldable pub owned_token : Str → ℕ → Handler Token
owned_token token_value api_key_id = do
  guard (not (str_eq token_value [])) (error_json 400 "token required")
  found ← attempt (get_token_by_value token_value) database_error
  tok ← present found token_not_found
  guard (owned_by api_key_id tok) token_not_found
  λ db. (next tok, db)
