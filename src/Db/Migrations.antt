-- ===== src/Db/Migrations.antt =====
-- Opening the database: internal/db/db.go. `S` is what the scripts make of the rest of the
-- database, and `exec_sql` what the engine does with a script: it says whether all of it ran, and
-- leaves what the part that ran has changed. The embedded directory is a parameter.
pub mod Versions
pub mod Steps
pub mod Laws
pub mod Order
pub mod Once
pub mod Opening
use oastrix.Prelude.{
  ℤ, ℕ, suc, ◌+◌, Str, bytes, Bool, true, false, not, ◌&&◌, ◌||◌, Option, none, some, List, [], ◌∷◌,
  ◌++◌, map, if◌then◌else◌, ltb, leb, ◌==◌, str_eq, keep, has_suffix,
}
use oastrix.Db.Migrations.Versions.{equal_version, parse_version}

pub data MigrationError : Type 0 where
  create_table read_dir : MigrationError
  invalid_name read_migration : Str → MigrationError
  check_migration record_migration : ℤ → MigrationError
  exec_migration : Str → MigrationError

-- An entry of the directory `migrations`.
pub record DirEntry : Type 0 where
  pub name : Str
  pub is_dir : Bool

-- What `embed.FS` answers.
pub record MigrationsFs : Type 0 where
  pub read_dir : Option (List DirEntry)
  pub read_file : Str → Option Str

-- A row of the table `schema_migrations`.
pub record AppliedMigration : Type 0 where
  pub version : ℤ
  pub applied_at : ℕ

-- The handle of the database: its tables, the pragmas of the connection, whether it was closed, and
-- what is read of the surroundings, as in `Db`.
pub record Store (S : Type 0) : Type 0 where
  pub migrations : List AppliedMigration
  pub rest : S
  pub pragmas : List Str
  pub closed : Bool
  pub clock : ℕ → ℕ
  pub reads : ℕ
  pub faults : List Bool

-- `a < b` on strings, byte by byte.
unfoldable pub str_less : Str → Str → Bool
str_less s [] = false
str_less [] (y ∷ t) = true
str_less (x ∷ s) (y ∷ t) = ltb x y || x == y && str_less s t

-- `sort.Strings`
unfoldable pub insert_string : Str → List Str → List Str
insert_string s [] = s ∷ []
insert_string s (t ∷ ts) =
    let later = insert_string s ts in if str_less t s then t ∷ later else s ∷ t ∷ ts

unfoldable pub sort_strings : List Str → List Str
unfolding insert_string
sort_strings [] = []
sort_strings (s ∷ ss) = insert_string s (sort_strings ss)

-- The names of the scripts, sorted.
unfoldable pub migration_names : List DirEntry → List Str
migration_names entries = sort_strings (
    map (λ (e : DirEntry). e.name)
      (keep (λ e. not e.is_dir && has_suffix e.name (bytes ".sql")) entries))

-- `SELECT COUNT(*) FROM schema_migrations WHERE version = ?`
unfoldable pub count_version : ℤ → List AppliedMigration → ℕ
count_version v [] = 0
count_version v (m ∷ ms) =
    let rest = count_version v ms in if equal_version m.version v then suc rest else rest

-- What a step gives: the error it ends with, or none, and the handle it leaves.
abbrev pub Outcome : Type 0 → Type 0 → Type 0
Outcome S E = Option E × Store S

module _ {S : Type 0} where
  -- The next statement, where the engine does not fail it.
  abbrev pub run_or_fail :
      {E : Type 0} → List Bool → E → (Store S → Outcome S E) → Store S → Outcome S E
  run_or_fail [] e run s = run s
  run_or_fail (true ∷ later) e run s = (some e, record s { faults = later })
  run_or_fail (false ∷ later) e run s = run (record s { faults = later })

  abbrev pub statement : {E : Type 0} → E → (Store S → Outcome S E) → Store S → Outcome S E
  statement e run s = run_or_fail s.faults e run s

  -- `if err != nil { return err }`
  abbrev pub and_then : {E : Type 0} → Outcome S E → (Store S → Outcome S E) → Outcome S E
  and_then (some e, s) k = (some e, s)
  and_then (none, s) k = k s

  -- `INSERT INTO schema_migrations`, with the time of the clock.
  abbrev pub record_version : ℤ → Store S → Outcome S MigrationError
  record_version v s =
      statement (record_migration v)
        (λ t. (
          none,
          record t {
            migrations = record { version = v; applied_at = s.clock s.reads } ∷ t.migrations;
          },
        ))
        (record s { reads = suc s.reads })

  module _ (exec_sql : Str → S → Bool × S) (fs : MigrationsFs) where
    abbrev pub exec_script : Str → Str → Store S → Outcome S MigrationError
    exec_script name content s =
        let (whole, rest) = exec_sql content s.rest in
        (if whole then none else some (exec_migration name), record s { rest = rest })

    -- A script whose version is not recorded: read, executed and recorded.
    abbrev pub run_migration : Str → ℤ → Store S → Outcome S MigrationError
    run_migration name v s = elim (fs.read_file (bytes "migrations/" ++ name)) [
      | none ↦ (some (read_migration name), s)
      | some content ↦
          and_then (statement (exec_migration name) (exec_script name content) s) (record_version v)
    ]

    -- The body of the loop.
    unfoldable pub apply_migration : Str → Store S → Outcome S MigrationError
    unfolding count_version
    apply_migration name s = elim (parse_version name) [
      | none ↦ (some (invalid_name name), s)
      | some v ↦
          statement (check_migration v)
            (λ t.
              if ltb 0 (count_version v t.migrations) then (none, t) else run_migration name v t)
            s
    ]

    unfoldable pub apply_names : List Str → Store S → Outcome S MigrationError
    unfolding apply_migration
    apply_names [] s = (none, s)
    apply_names (name ∷ names) s = and_then (apply_migration name s) (apply_names names)

    -- The scripts of the directory, if it could be read.
    unfoldable pub apply_entries : Option (List DirEntry) → Store S → Outcome S MigrationError
    unfolding apply_names migration_names
    apply_entries none s = (some read_dir, s)
    apply_entries (some entries) s = apply_names (migration_names entries) s

    unfoldable pub apply_migrations : Store S → Outcome S MigrationError
    unfolding apply_entries
    apply_migrations s =
        and_then (statement create_table (λ t. (none, t)) s) (apply_entries fs.read_dir)
