-- ===== src/Server/Api/Routes.antt =====
-- The API as a whole: `Handler` of internal/server/api.go. A request that the multiplexer of the
-- standard library matches to one of the five patterns is a `Route`, with what the handler reads of
-- it; the middleware stands before the multiplexer.
pub mod Isolation
pub mod Integrity
use oastrix.Plugins.Interfaces
use oastrix.Prelude.{ℕ, Str, Option, List}
use oastrix.Runtime.{Runtime}
use oastrix.Server.Api.Flow.{Handler}
use oastrix.Server.Api.Access.{auth_middleware}
use oastrix.Server.Api.Handlers.{
  ApiServer, Decoded, handle_create_token, handle_list_tokens, handle_get_interactions,
  handle_delete_token, handle_list_plugins,
}

pub data Route : Type 0 where
  -- `POST /v1/tokens`, with the body and what the random source delivers.
  create_token : Option (Decoded Str × Decoded (Unit {0})) → Option Str → Route
  -- `GET /v1/tokens`
  list_tokens : Route
  -- `GET /v1/tokens/{token}/interactions`
  get_interactions : Str → Route
  -- `DELETE /v1/tokens/{token}`
  delete_token : Str → Route
  -- `GET /v1/plugins`
  list_plugins : Route

module _ (rt : Runtime) (s : ApiServer) (plugins : Option (List Interfaces.PluginInfo)) where
  unfoldable pub route : Route → ℕ → Handler ⊥
  route (create_token body random_read) key = handle_create_token s body random_read key
  route list_tokens key = handle_list_tokens rt key
  route (get_interactions token) key = handle_get_interactions rt token key
  route (delete_token token) key = handle_delete_token token key
  route list_plugins key = handle_list_plugins plugins

  unfoldable pub handler : Route → Str → Handler ⊥
  unfolding route
  handler r auth_header = auth_middleware rt.sha256 (route r) auth_header
