-- ===== src/Db.antt =====
-- The database: internal/db. A `Db` holds the tables and the counters of the AUTOINCREMENT
-- columns, and beside them what the program reads of its surroundings: the clock, how often it was
-- read, and which of the coming statements the engine will fail. A failed statement changes no
-- table. Each statement is one step, as in SQLite. `foreign_keys` is the pragma of the connection
-- that runs the statements; it decides whether references are checked and deletions cascade.
pub mod ApiKeys
pub mod Tokens
pub mod Interactions
pub mod Attributes
pub mod PluginConfig
pub mod Migrations
pub mod Integrity
use oastrix.Prelude.{
  ℕ, suc, ◌+◌, Str, Bool, true, false, ◌||◌, Option, none, some, List, [], ◌∷◌, ◌==◌,
}
use oastrix.Failure.{Error, engine, Result, ok, err}
use oastrix.Models.{
  ApiKey, Token, InteractionRow, HttpInteraction, DnsInteraction, AttributeRow, ConfigRow,
}

pub record Db : Type 0 where
  pub api_keys : List ApiKey
  pub tokens : List Token
  pub interactions : List InteractionRow
  pub http_interactions : List HttpInteraction
  pub dns_interactions : List DnsInteraction
  pub attributes : List AttributeRow
  pub plugin_configs : List ConfigRow
  pub last_api_key : ℕ
  pub last_token : ℕ
  pub last_interaction : ℕ
  pub clock : ℕ → ℕ
  pub reads : ℕ
  pub faults : List Bool
  pub foreign_keys : Bool

-- An operation on the database: a result, and the database that it leaves.
abbrev pub Exec {ℓ} : Type ℓ → Type ℓ
Exec A = Db → Result A × Db

abbrev pub continue {ℓ κ} : {A : Type ℓ} {B : Type κ} → Result A × Db → (A → Exec B) → Result B × Db
continue (ok a, db) k = k a db
continue (err e, db) k = (err e, db)

infixl 5 ◌>>=◌ ◌>>◌
abbrev pub ◌>>=◌ {ℓ κ} : {A : Type ℓ} {B : Type κ} → Exec A → (A → Exec B) → Exec B
◌>>=◌ m k db = continue (m db) k

abbrev pub ◌>>◌ {ℓ κ} : {A : Type ℓ} {B : Type κ} → Exec A → Exec B → Exec B
m >> k = m >>= λ _. k

abbrev pub pure {ℓ} : {A : Type ℓ} → A → Exec A
pure a db = (ok a, db)

abbrev pub fail {ℓ} : {A : Type ℓ} → Error → Exec A
fail e db = (err e, db)

-- One statement: the engine fails it, or it runs.
abbrev pub run_or_fail {ℓ} : {A : Type ℓ} → List Bool → Exec A → Exec A
run_or_fail [] run db = run db
run_or_fail (true ∷ rest) run db = (err engine, record db { faults = rest })
run_or_fail (false ∷ rest) run db = run (record db { faults = rest })

abbrev pub statement {ℓ} : {A : Type ℓ} → Exec A → Exec A
statement run db = run_or_fail db.faults run db

-- `time.Now().Unix()`
abbrev pub now : Exec ℕ
now db = (ok (db.clock db.reads), record db { reads = suc db.reads })

abbrev pub elem : ℕ → List ℕ → Bool
elem n [] = false
elem n (m ∷ ms) = m == n || elem n ms
