-- ===== src/Db/ApiKeys.antt =====
-- internal/db/apikeys.go
pub mod Laws
use oastrix.Prelude.{
  ℕ, suc, ◌+◌, Str, Option, none, some, List, [], ◌∷◌, if◌then◌else◌, str_eq, is_some,
}
use oastrix.Failure.{unique}
use oastrix.Models.{ApiKey}
use oastrix.Db.{Exec, ◌>>=◌, pure, fail, statement, now}

unfoldable pub find_api_key : Str → List ApiKey → Option ApiKey
find_api_key prefix [] = none
find_api_key prefix (k ∷ ks) = if str_eq k.key_prefix prefix then some k else find_api_key prefix ks

abbrev pub insert_api_key : Str → Str → ℕ → Exec ℕ
insert_api_key prefix hash created db =
    if is_some (find_api_key prefix db.api_keys)
    then fail unique db
    else pure (suc db.last_api_key) (record db {
      api_keys =
          record {
            id = suc db.last_api_key;
            key_prefix = prefix;
            key_hash = hash;
            created_at = created;
            revoked_at = none;
          }
          ∷ db.api_keys;
      last_api_key = suc db.last_api_key;
    })

-- The result is the ID of the new row.
unfoldable pub create_api_key : Str → Str → Exec ℕ
create_api_key prefix hash = do created ← now; statement (insert_api_key prefix hash created)

-- `none` for `sql.ErrNoRows`
unfoldable pub get_api_key_by_prefix : Str → Exec (Option ApiKey)
get_api_key_by_prefix prefix = statement (λ db. pure (find_api_key prefix db.api_keys) db)

unfoldable pub count_active : List ApiKey → ℕ
count_active [] = 0
count_active (k ∷ ks) = elim k.revoked_at [ none ↦ 1 | some t ↦ 0 ] + count_active ks

unfoldable pub count_api_keys : Exec ℕ
count_api_keys = statement (λ db. pure (count_active db.api_keys) db)
