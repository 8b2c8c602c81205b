-- ===== src/Server/Api.antt =====
-- The REST API: internal/server/api.go, with the types of internal/apitypes/types.go. A handler
-- reads and writes the database and returns a response. What it logs is left out.
-- `AuthMiddleware` puts the ID of the API key into the request's context; here it is an argument
-- of the handlers.
pub mod Types
pub mod Flow
pub mod Access
pub mod Handlers
pub mod Routes
