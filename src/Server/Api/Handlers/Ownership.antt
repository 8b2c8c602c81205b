-- ===== src/Server/Api/Handlers/Ownership.antt =====
-- What the handlers do with a token that the API key does not own.
use oastrix.Prelude.{ℕ, ◌≡◌, ◌≢◌, inl, inr, ◌∙◌, ap, Str, Bool, true, false, some, List, [], arith}
use oastrix.Models.{Token}
use oastrix.Runtime.{Runtime}
use oastrix.Db.{Db}
use oastrix.Db.Tokens.{find_token, delete_token, delete_where, owned_by}
use oastrix.Server.Api.Types.{write_json, delete_token_response}
use oastrix.Server.Api.Flow.{Flow, returned, go_on-returned, Flow-cases}
use oastrix.Server.Api.Access.{owned_token, token_not_found}
use oastrix.Server.Api.Access.Owner.{
  owns, owned_token-foreign, owned_token-owned, owned_token-reads, owned_token_sound,
}
use oastrix.Server.Api.Handlers.{handle_get_interactions, handle_delete_token}

-- Where no statement fails, a request to read or to delete a token that the API key does not own is
-- answered 404 and changes nothing, whether the token belongs to another key or does not exist: the
-- two cannot be told apart. The value of the token is not empty.
pub foreign_token_not_found :
    (rt : Runtime) (v : Str) (key : ℕ) (db : Db)
    → db.faults ≡ []
    → v ≢ []
    → owns db v key ≡ false
    → (handle_get_interactions rt v key db ≡ (returned token_not_found, db))
      × (handle_delete_token v key db ≡ (returned token_not_found, db))
unfolding handle_get_interactions handle_delete_token
foreign_token_not_found rt v key db sound ne foreign =
    let refused = owned_token-foreign v key db sound ne foreign in
    (ground (arith, refused), ground (arith, refused))

-- Whatever statements the engine fails, a request to delete a token that the API key does not
-- own changes no table.
pub handle_delete_token-foreign :
    (v : Str) (key : ℕ) (db : Db)
    → owns db v key ≡ false
    → (fs : List Bool) × ((handle_delete_token v key db).1 ≡ record db { faults = fs })
unfolding handle_delete_token
handle_delete_token-foreign v key db foreign =
    let m = owned_token v key db in
    let reads = owned_token-reads v key db in
    elim (Flow-cases m.0) [
      | inl (r, stopped) ↦
          (m.1.faults, ap (λ (p : Flow ⊥ × Db). p.1) (go_on-returned m _ r stopped) ∙ reads)
      | inr (t, passed) ↦ let (found, mine) = owned_token_sound v key db t passed in ground arith
    ]

-- Where no statement fails, a request of the owner to delete a stored token, whose value is not
-- empty, is answered 200, and deletes the rows of that value and, if the foreign keys are enforced,
-- the interactions, details, attributes and plugin configurations that refer to them.
pub handle_delete_token-owned :
    (v : Str) (key : ℕ) (db : Db) (t : Token)
    → db.faults ≡ []
    → v ≢ []
    → find_token v db.tokens ≡ some t
    → owned_by key t ≡ true
    → handle_delete_token v key db
      ≡ (returned (write_json 200 (delete_token_response true)), delete_where v db)
unfolding handle_delete_token delete_token
handle_delete_token-owned v key db t sound ne found mine =
    let passed = owned_token-owned v key db t sound ne found mine in ground (arith, passed)
