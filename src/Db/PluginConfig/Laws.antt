-- ===== src/Db/PluginConfig/Laws.antt =====
-- What the operations of internal/db/plugin_config.go promise.
use oastrix.Failure.{decode, ok, err, encode, foreign_key}
use oastrix.Db.{Result, engine, Db}
use oastrix.Prelude.{
  ℕ, ◌≡◌, refl, Str, Bool, true, false, not, ◌&&◌, Option, none, some, List, [], ◌∷◌, arith,
  if◌then◌else◌, ◌==◌, str_eq, str_eq_iff, keep,
}
use oastrix.Models.{ConfigRow}
use oastrix.Events.{encodes, unencodable}
use oastrix.Db.Interactions.{token_exists}
use oastrix.Db.PluginConfig.{
  is_config_of, upsert_config, set_token_plugin_config, find_config, get_token_plugin_config,
  delete_token_plugin_config,
}

find_config-upsert_config :
    (i : ℕ) (p : Str) (id : ℕ) (plugin v : Str) (rows : List ConfigRow)
    → find_config i p (upsert_config id plugin v rows)
      ≡ (if id == i && str_eq plugin p then some v else find_config i p rows)
unfolding find_config upsert_config
find_config-upsert_config i p id plugin v [] = refl
find_config-upsert_config i p id plugin v (c ∷ rows) = ground (
  arith,
  str_eq_iff c.plugin_id plugin,
  str_eq_iff plugin p,
  str_eq_iff c.plugin_id p,
  find_config-upsert_config i p id plugin v rows,
)

find_config-keep :
    (i : ℕ) (p : Str) (id : ℕ) (plugin : Str) (rows : List ConfigRow)
    → find_config i p (keep (λ c. not (is_config_of id plugin c)) rows)
      ≡ (if id == i && str_eq plugin p then none else find_config i p rows)
unfolding find_config keep
find_config-keep i p id plugin [] = ground arith
find_config-keep i p id plugin (c ∷ rows) = ground (
  arith,
  str_eq_iff c.plugin_id plugin,
  str_eq_iff plugin p,
  str_eq_iff c.plugin_id p,
  find_config-keep i p id plugin rows,
)

set_stored :
    (id : ℕ) (plugin text : Str) (db : Db)
    → db.faults ≡ []
    → token_exists id db.tokens ≡ true
    → set_token_plugin_config id plugin (encodes text) db
      ≡ (ok tt, record db { plugin_configs = upsert_config id plugin text db.plugin_configs })
unfolding set_token_plugin_config
set_stored id plugin text db sound exists = ground arith

delete_stored :
    (id : ℕ) (plugin : Str) (db : Db)
    → db.faults ≡ []
    → delete_token_plugin_config id plugin db ≡ (
      ok tt,
      record db { plugin_configs = keep (λ c. not (is_config_of id plugin c)) db.plugin_configs },
    )
unfolding delete_token_plugin_config
delete_stored id plugin db sound = ground arith

module _ {V : Type 0} (unmarshal : Str → Option V) where
  -- What reading gives for the text that is stored.
  read_text : Option Str → Result (Option V)
  read_text none = ok none
  read_text (some text) = elim (unmarshal text) [ none ↦ err decode | some v ↦ ok (some v) ]

  get_found :
      (i : ℕ) (p : Str) (db : Db)
      → db.faults ≡ []
      → get_token_plugin_config unmarshal i p db
        ≡ (read_text (find_config i p db.plugin_configs), db)
  unfolding get_token_plugin_config read_text
  get_found i p db sound = ground arith

  read_upsert :
      (i : ℕ) (p : Str) (id : ℕ) (plugin text : Str) (v : V) (rows : List ConfigRow)
      → unmarshal text ≡ some v
      → read_text (find_config i p (upsert_config id plugin text rows))
        ≡ (if id == i && str_eq plugin p then ok (some v) else read_text (find_config i p rows))
  unfolding read_text
  read_upsert i p id plugin text v rows good =
      rw (find_config-upsert_config i p id plugin text rows) (ground arith)

  -- On a database that works, a configuration with a JSON encoding that is set for a stored token
  -- and a plugin changes the table of configurations alone, and reading then gives, for that token
  -- and plugin, what the encoding decodes to, and for every other pair what it gave before.
  pub get-set_token_plugin_config :
      (id : ℕ) (plugin text : Str) (v : V) (db : Db)
      → db.faults ≡ []
      → token_exists id db.tokens ≡ true
      → unmarshal text ≡ some v
      → (rows : List ConfigRow) × (set_token_plugin_config id plugin (encodes text) db
          ≡ (ok tt, record db { plugin_configs = rows }))
        × ((i : ℕ) (p : Str)
            → (get_token_plugin_config unmarshal i p (record db { plugin_configs = rows })).0 ≡ (
                if id == i && str_eq plugin p
                then ok (some v)
                else (get_token_plugin_config unmarshal i p db).0))
  get-set_token_plugin_config id plugin text v db sound exists good = (
    upsert_config id plugin text db.plugin_configs,
    set_stored id plugin text db sound exists,
    λ i p.
        rw
          (
            get_found i p
                (record db { plugin_configs = upsert_config id plugin text db.plugin_configs })
                sound,
            get_found i p db sound,
          )
          (read_upsert i p id plugin text v db.plugin_configs good),
  )

  -- On a database that works, after the configuration of a token and a plugin is deleted, reading
  -- finds nothing for that pair, and for every other pair gives what it gave before; no other table
  -- changes.
  pub get-delete_token_plugin_config :
      (id : ℕ) (plugin : Str) (db : Db)
      → db.faults ≡ []
      → (rows : List ConfigRow) × (delete_token_plugin_config id plugin db
          ≡ (ok tt, record db { plugin_configs = rows }))
        × ((i : ℕ) (p : Str)
            → (get_token_plugin_config unmarshal i p (record db { plugin_configs = rows })).0 ≡ (
                if id == i && str_eq plugin p
                then ok none
                else (get_token_plugin_config unmarshal i p db).0))
  unfolding read_text
  get-delete_token_plugin_config id plugin db sound =
      let rows = keep (λ c. not (is_config_of id plugin c)) db.plugin_configs in
      (
        rows,
        delete_stored id plugin db sound,
        λ i p.
            rw
              (
                get_found i p (record db { plugin_configs = rows }) sound,
                get_found i p db sound,
                find_config-keep i p id plugin db.plugin_configs,
              )
              (ground arith),
      )

-- A configuration without a JSON encoding, a token that does not exist and a statement that the
-- engine fails are each reported, and none of them changes a table.
pub set_token_plugin_config-refused :
    (id : ℕ) (plugin text : Str) (rest : List Bool) (db : Db)
    → (set_token_plugin_config id plugin unencodable db ≡ (err encode, db))
      × (db.faults ≡ []
          → db.foreign_keys ≡ true
          → token_exists id db.tokens ≡ false
          → set_token_plugin_config id plugin (encodes text) db ≡ (err foreign_key, db))
      × (db.faults ≡ true ∷ rest
          → set_token_plugin_config id plugin (encodes text) db
            ≡ (err engine, record db { faults = rest }))
unfolding set_token_plugin_config
set_token_plugin_config-refused id plugin text rest db =
    (refl, λ sound on missing. ground arith, λ failing. ground arith)
