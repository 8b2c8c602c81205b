-- ===== src/Server/Api/Access/Owner.antt =====
-- The checks that a token belongs to the API key: internal/server/api.go.
use oastrix.Prelude.{ℕ, ◌≡◌, ◌≢◌, refl, Str, Bool, true, false, none, some, [], ◌∷◌, arith, str_eq}
use oastrix.Models.{Token}
use oastrix.Db.{Db}
use oastrix.Db.Tokens.{find_token, get_token_by_value, owned_by}
use oastrix.Server.Api.Flow.{returned, next}
use oastrix.Server.Api.Access.{owned_token, token_not_found}

-- Whether an API key owns the token of a value; nobody owns a token that is not there.
abbrev pub owns : Db → Str → ℕ → Bool
owns db v key = elim (find_token v db.tokens) [ none ↦ false | some t ↦ owned_by key t ]

pub owned_token-foreign :
    (v : Str) (key : ℕ) (db : Db)
    → db.faults ≡ []
    → v ≢ []
    → owns db v key ≡ false
    → owned_token v key db ≡ (returned token_not_found, db)
unfolding owned_token get_token_by_value str_eq
owned_token-foreign [] key db sound ne foreign = absurd (ne refl)
owned_token-foreign (c ∷ v) key db sound ne foreign = ground arith

pub owned_token-owned :
    (v : Str) (key : ℕ) (db : Db) (t : Token)
    → db.faults ≡ []
    → v ≢ []
    → find_token v db.tokens ≡ some t
    → owned_by key t ≡ true
    → owned_token v key db ≡ (next t, db)
unfolding owned_token get_token_by_value str_eq
owned_token-owned [] key db t sound ne found mine = absurd (ne refl)
owned_token-owned (c ∷ v) key db t sound ne found mine = ground arith

pub owned_token-reads :
    (v : Str) (key : ℕ) (db : Db)
    → (owned_token v key db).1 ≡ record db { faults = (owned_token v key db).1.faults }
unfolding owned_token get_token_by_value
owned_token-reads v key db = ground arith

-- The check passes only for a stored token of the API key.
pub owned_token_sound :
    (v : Str) (key : ℕ) (db : Db) (t : Token)
    → (owned_token v key db).0 ≡ next t
    → (find_token v db.tokens ≡ some t) × (owned_by key t ≡ true)
unfolding owned_token get_token_by_value
owned_token_sound v key db t h = ground arith
