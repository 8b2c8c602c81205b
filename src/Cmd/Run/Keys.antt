-- ===== src/Cmd/Run/Keys.antt =====
-- The API key of the first start: `runServer` of cmd/oastrix/server.go.
use oastrix.Prelude.{
  if◌then◌else◌, suc, ◌≡◌, ◌≢◌, refl, Str, ◌++◌, Option, none, some, [], ◌∷◌, arith, length, ap,
  ◌∙◌, ◌==◌,
}
use oastrix.Failure.{ok}
use oastrix.Auth.{NewKey, generate_api_key, prefix_length}
use oastrix.Db.{Db}
use oastrix.Db.ApiKeys.{count_active, count_api_keys, create_api_key, find_api_key}
use oastrix.Server.Api.Access.{authenticate, bearer}
use oastrix.Server.Api.Access.Auth.{authenticate-generate_api_key}
use oastrix.Server.Api.Flow.{next}
use oastrix.Cmd.Run.{
  made_key, go_on, database_result, act, give, RunState, key_printed, goes_on, first_key,
}

module _ {W C Hello : Type 0} (sha256 : Str → Str) (s : RunState W C Hello)
    (sound : s.db.faults ≡ []) where
  counted : count_api_keys s.db ≡ (ok (count_active s.db.api_keys), s.db)
  unfolding count_api_keys
  counted = ground arith

  -- Where an active API key is stored, on a database that works, a start makes no key, prints none
  -- and changes nothing.
  pub first_key-restart :
      (prefix_read secret_read : Option Str)
      → count_active s.db.api_keys ≢ 0
      → first_key sha256 prefix_read secret_read s ≡ (goes_on tt, s)
  unfolding first_key count_api_keys
  first_key-restart prefix_read secret_read some_key = ground arith

  first_key-made :
      (prefix_read secret_read : Option Str)
      → count_active s.db.api_keys ≡ 0
      → first_key sha256 prefix_read secret_read s
        ≡ made_key (generate_api_key sha256 prefix_read secret_read) s
  unfolding first_key count_api_keys
  first_key-made prefix_read secret_read keyless =
      ap
        (λ m. go_on (database_result s m) (λ count.
          if count == 0
          then made_key (generate_api_key sha256 prefix_read secret_read)
          else give tt))
        counted
      ∙ rw keyless refl

  created_db :
      (prefix hash : Str)
      → find_api_key prefix s.db.api_keys ≡ none
      → (db : Db) × (create_api_key prefix hash s.db ≡ (ok (suc s.db.last_api_key), db))
        × (count_active db.api_keys ≡ suc (count_active s.db.api_keys))
        × (db.faults ≡ [])
  unfolding create_api_key count_active
  created_db prefix hash new =
      ((create_api_key prefix hash s.db).1, ground arith, ground arith, ground arith)

module _ {W C Hello : Type 0} (sha256 : Str → Str) (s : RunState W C Hello)
    (sound : s.db.faults ≡ []) where
  -- Where no active API key is stored, on a database that works, a start with a random source that
  -- works, and that makes a prefix which no revoked key has, stores a key and prints it; whoever
  -- sends it to the API is let in, as the owner of the new row. The next start, on the database that
  -- this leaves and whatever the random source then delivers, makes and prints no other key and
  -- changes nothing.
  pub first_key-lets_in :
      (prefix_bytes secret_raw : Str) (k : NewKey) (next_prefix next_secret : Option Str)
      → count_active s.db.api_keys ≡ 0
      → length prefix_bytes ≡ prefix_length
      → generate_api_key sha256 (some prefix_bytes) (some secret_raw) ≡ some k
      → find_api_key k.prefix s.db.api_keys ≡ none
      → (db : Db) × (first_key sha256 (some prefix_bytes) (some secret_raw) s
          ≡ (goes_on tt, record s { db = db; acts = key_printed k.display_key ∷ s.acts }))
        × ((authenticate sha256 (bearer ++ k.display_key) db).0 ≡ next (suc s.db.last_api_key))
        × (first_key sha256 next_prefix next_secret (record s { db = db })
            ≡ (goes_on tt, record s { db = db }))
  first_key-lets_in prefix_bytes secret_raw k next_prefix next_secret keyless len made new =
      let (db, created, counted, works) = created_db sha256 s sound k.prefix k.hash new in
      (
        db,
        first_key-made sha256 s sound (some prefix_bytes) (some secret_raw) keyless
            ∙ ap (λ o. made_key o s) made
            ∙ ap (λ m. go_on (database_result s m) (λ id. act (key_printed k.display_key))) created,
        authenticate-generate_api_key sha256 prefix_bytes secret_raw k s.db db
            (suc s.db.last_api_key) len made sound created,
        first_key-restart sha256 (record s { db = db }) works next_prefix next_secret
            (λ e. omega (arith, counted)),
      )
