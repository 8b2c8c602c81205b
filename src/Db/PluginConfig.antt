-- ===== src/Db/PluginConfig.antt =====
-- internal/db/plugin_config.go. The value of a configuration is what `json.Marshal` makes of it.
pub mod Laws
use oastrix.Prelude.{
  ℕ, Str, Bool, not, ◌&&◌, Option, none, some, List, [], ◌∷◌, if◌then◌else◌, ◌==◌, str_eq, keep,
}
use oastrix.Failure.{foreign_key}
use oastrix.Models.{ConfigRow}
use oastrix.Events.{Any}
use oastrix.Db.{Db, Exec, ◌>>=◌, ◌>>◌, pure, fail, statement}
use oastrix.Db.Interactions.{token_exists}
use oastrix.Db.Attributes.{marshal, decoded}

-- The test `token_id = ? AND plugin_id = ?`.
abbrev pub is_config_of : ℕ → Str → ConfigRow → Bool
is_config_of id plugin c = c.token_id == id && str_eq c.plugin_id plugin

-- `ON CONFLICT (token_id, plugin_id) DO UPDATE`
unfoldable pub upsert_config : ℕ → Str → Str → List ConfigRow → List ConfigRow
upsert_config id plugin config [] =
    record { token_id = id; plugin_id = plugin; config = config } ∷ []
upsert_config id plugin config (c ∷ rows) =
    let rest = upsert_config id plugin config rows in
    if is_config_of id plugin c
    then record { token_id = id; plugin_id = plugin; config = config } ∷ rows
    else c ∷ rest

abbrev pub insert_config : ℕ → Str → Str → Exec (Unit {0})
insert_config id plugin config db =
    if db.foreign_keys && not (token_exists id db.tokens)
    then fail foreign_key db
    else pure tt (record db { plugin_configs = upsert_config id plugin config db.plugin_configs })

unfoldable pub set_token_plugin_config : ℕ → Str → Any → Exec (Unit {0})
set_token_plugin_config id plugin config = do
  encoded ← marshal config
  statement (insert_config id plugin encoded)

-- The column `config` of the row of a token and a plugin.
unfoldable pub find_config : ℕ → Str → List ConfigRow → Option Str
find_config id plugin [] = none
find_config id plugin (c ∷ rows) =
    if is_config_of id plugin c then some c.config else find_config id plugin rows

module _ {V : Type 0} (unmarshal : Str → Option V) where
  abbrev pub decode_found : Option Str → Exec (Option V)
  decode_found none = pure none
  decode_found (some text) = do v ← decoded unmarshal text; pure (some v)

  -- `none` for the result `(false, nil)`, and the value that is decoded for `(true, nil)`.
  unfoldable pub get_token_plugin_config : ℕ → Str → Exec (Option V)
  get_token_plugin_config id plugin = do
    found ← statement (λ db. pure (find_config id plugin db.plugin_configs) db)
    decode_found found

unfoldable pub delete_token_plugin_config : ℕ → Str → Exec (Unit {0})
delete_token_plugin_config id plugin = statement (λ db.
    pure tt
      (record db { plugin_configs = keep (λ c. not (is_config_of id plugin c)) db.plugin_configs }))
