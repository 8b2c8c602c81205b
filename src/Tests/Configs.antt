-- ===== src/Tests/Configs.antt =====
-- A plugin configuration of the stored token.
use oastrix.Prelude.{
  ℕ, ◌≡◌, refl, Str, bytes, ◌&&◌, Option, some, List, if◌then◌else◌, ◌==◌, str_eq,
}
use oastrix.Failure.{ok}
use oastrix.Models.{ConfigRow}
use oastrix.Events.{encodes}
use oastrix.Db.PluginConfig.{set_token_plugin_config, get_token_plugin_config}
use oastrix.Db.PluginConfig.Laws.{get-set_token_plugin_config}
use oastrix.Tests.Data.{db}

abbrev unmarshal : Str → Option Str
unmarshal text = some text

get-set_token_plugin_config_example :
    (rows : List ConfigRow) × (set_token_plugin_config 1 (bytes "notify") (encodes (bytes "{}")) db
      ≡ (ok tt, record db { plugin_configs = rows }))
    × ((i : ℕ) (p : Str)
        → (get_token_plugin_config unmarshal i p (record db { plugin_configs = rows })).0 ≡ (
            if 1 == i && str_eq (bytes "notify") p
            then ok (some (bytes "{}"))
            else (get_token_plugin_config unmarshal i p db).0))
get-set_token_plugin_config_example =
    get-set_token_plugin_config unmarshal 1 (bytes "notify") (bytes "{}") (bytes "{}") db refl refl
      refl
