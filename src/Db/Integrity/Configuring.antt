-- ===== src/Db/Integrity/Configuring.antt =====
-- Referential integrity and internal/db/plugin_config.go.
use oastrix.Prelude.{arith, ℕ, ◌≡◌, Str, true, not, ◌&&◌, List, [], ◌∷◌, All, All-keep, keep}
use oastrix.Failure.{ok, foreign_key}
use oastrix.Models.{Token, ConfigRow}
use oastrix.Events.{Any, encodes, unencodable}
use oastrix.Db.{Db, pure}
use oastrix.Db.Interactions.{token_exists}
use oastrix.Db.PluginConfig.{
  is_config_of, upsert_config, insert_config, set_token_plugin_config, delete_token_plugin_config,
}
use oastrix.Db.Integrity.{IsWellFormed}
use oastrix.Db.Integrity.Creation.{
  statement-IsWellFormed, moved-IsWellFormed, guarded_once, enforced_reference,
}

All-upsert_config :
    (toks : List Token) (id : ℕ) (plugin v : Str) (rows : List ConfigRow)
    → token_exists id toks ≡ true
    → All (λ (c : ConfigRow). token_exists c.token_id toks ≡ true) rows
    → All (λ (c : ConfigRow). token_exists c.token_id toks ≡ true) (upsert_config id plugin v rows)
unfolding upsert_config
All-upsert_config toks id plugin v [] there h = (there, tt)
All-upsert_config toks id plugin v (c ∷ rows) there h =
    ground (arith, All-upsert_config toks id plugin v rows)

-- Setting the configuration of a plugin keeps the referential integrity of the database, whatever
-- statements the engine fails.
pub set_token_plugin_config-IsWellFormed :
    (id : ℕ) (plugin : Str) (config : Any) (db : Db)
    → IsWellFormed db
    → IsWellFormed (set_token_plugin_config id plugin config db).1
unfolding set_token_plugin_config
set_token_plugin_config-IsWellFormed id plugin unencodable db w = w
set_token_plugin_config-IsWellFormed id plugin (encodes v) db w =
    statement-IsWellFormed (insert_config id plugin v) db
      (λ fs.
        guarded_once (db.foreign_keys && not (token_exists id db.tokens)) foreign_key
          (
            ok tt,
            record db { plugin_configs = upsert_config id plugin v db.plugin_configs; faults = fs },
          )
          (record db { faults = fs }) (moved-IsWellFormed db db.reads fs w)
          (λ good. record {
            enforced = w.enforced;
            tokens_numbered = w.tokens_numbered;
            rows_numbered = w.rows_numbered;
            rows_owned = w.rows_owned;
            http_owned = w.http_owned;
            dns_owned = w.dns_owned;
            attributes_owned = w.attributes_owned;
            configs_owned =
                All-upsert_config db.tokens id plugin v db.plugin_configs
                  (enforced_reference db w good) w.configs_owned;
          }))
      w

-- Deleting the configuration of a plugin keeps the referential integrity of the database.
pub delete_token_plugin_config-IsWellFormed :
    (id : ℕ) (plugin : Str) (db : Db)
    → IsWellFormed db
    → IsWellFormed (delete_token_plugin_config id plugin db).1
unfolding delete_token_plugin_config
delete_token_plugin_config-IsWellFormed id plugin db w =
    statement-IsWellFormed
      (λ d.
        pure tt (record d {
          plugin_configs = keep (λ c. not (is_config_of id plugin c)) d.plugin_configs;
        }))
      db
      (λ fs. record {
        enforced = w.enforced;
        tokens_numbered = w.tokens_numbered;
        rows_numbered = w.rows_numbered;
        rows_owned = w.rows_owned;
        http_owned = w.http_owned;
        dns_owned = w.dns_owned;
        attributes_owned = w.attributes_owned;
        configs_owned =
            All-keep (λ c. not (is_config_of id plugin c)) (λ c p h. h) db.plugin_configs
              w.configs_owned;
      })
      w
