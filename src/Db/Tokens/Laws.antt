-- ===== src/Db/Tokens/Laws.antt =====
-- Lookup of tokens after creation and deletion.
use oastrix.Prelude.{
  ℕ, suc, ◌≡◌, Str, not, ◌&&◌, Option, none, List, [], ◌∷◌, arith, if◌then◌else◌, str_eq,
  str_eq_iff, keep, is_some,
}
use oastrix.Failure.{ok, err, unique, foreign_key}
use oastrix.Models.{Token}
use oastrix.Db.{Db}
use oastrix.Db.Tokens.{
  find_token, create_token, delete_where, cascade_tokens, cascade_interactions, key_exists,
}

-- After tokens of one value are kept out, that value is not found, and the others are found as
-- before.
pub find_token-keep :
    (v u : Str) (tokens : List Token)
    → find_token u (keep (λ t. not (str_eq t.token v)) tokens)
      ≡ (if str_eq v u then none else find_token u tokens)
unfolding find_token keep
find_token-keep v u [] = ground arith
find_token-keep v u (t ∷ tokens) =
    ground (
      arith,
      str_eq_iff t.token v,
      str_eq_iff t.token u,
      str_eq_iff v u,
      find_token-keep v u tokens,
    )

-- After the rows of one value are deleted, with all that the foreign keys cascade to, a lookup of
-- that value finds nothing, and a lookup of another value finds what it found before.
pub find_token-delete_where :
    (v u : Str) (db : Db)
    → find_token u (delete_where v db).tokens
      ≡ (if str_eq v u then none else find_token u db.tokens)
unfolding cascade_tokens cascade_interactions
find_token-delete_where v u db = ground (arith, find_token-keep v u db.tokens)

-- The row of a token that was created: a new ID, the owner and the label.
abbrev pub token_row : Str → Option ℕ → Option Str → Db → Token
token_row v key label db = record {
  id = suc db.last_token;
  token = v;
  api_key_id = key;
  created_at = db.clock db.reads;
  label = label;
}

-- What `CreateToken` does on every branch, where the engine works: a value that is taken and an
-- owner that does not exist are refused, and else one row is added.
pub create_token-cases :
    (v : Str) (key : Option ℕ) (label : Option Str) (db : Db)
    → db.faults ≡ []
    → create_token v key label db ≡ (
        let db1 = record db { reads = suc db.reads } in
        if is_some (find_token v db.tokens)
        then (err unique, db1)
        else if db.foreign_keys && not (key_exists key db.api_keys)
        then (err foreign_key, db1)
        else (
          ok (suc db.last_token),
          record db1 {
            tokens = token_row v key label db ∷ db.tokens;
            last_token = suc db.last_token;
          },
        ))
unfolding create_token
create_token-cases v key label db sound = ground arith
