-- ===== src/Tests/Migrations.antt =====
-- Opening an empty database with two scripts.
use mathlib.Core.List.{Perm}
use oastrix.Db.Migrations.Order.{IsSorted, migration_names-IsSorted}
use oastrix.Db.Migrations.{
  DirEntry, migration_names, MigrationsFs, Store, Outcome, apply_migration, apply_migrations,
  count_version, exec_migration, record_migration, str_less, sort_strings,
}
use oastrix.Prelude.{
  pos, map, ◌&&◌, keep, has_suffix, index_byte, arith, ◌≡◌, refl, Str, bytes, Bool, true, false,
  none, some, List, [], ◌∷◌, ◌++◌, not, str_eq, contains,
}
use oastrix.Db.Migrations.Versions.{parse_version}
use oastrix.Db.Migrations.Laws.{apply_migrations-again}
use oastrix.Db.Migrations.Once.{IsOnce, apply_migrations-IsOnce, apply_migration-stuck}
use oastrix.Db.Migrations.Opening.{OpenError, IsOpened, open_db, open_db-IsOpened}

abbrev init : Str
init = bytes "001_init.sql"

abbrev plugins : Str
plugins = bytes "002_plugin_tables.sql"

-- The scripts that were executed are the rest of the database; none can be executed twice.
abbrev exec_sql : Str → List Str → Bool × List Str
exec_sql content ran = (not (contains ran content), content ∷ ran)

abbrev migrations : MigrationsFs
migrations = record {
  read_dir =
      some
        (record { name = plugins; is_dir = false } ∷ record { name = init; is_dir = false } ∷ []);
  read_file = λ path. some path;
}

-- The two scripts, a folder and a file that is no script.
abbrev listing : List DirEntry
listing =
    record { name = plugins; is_dir = false }
    ∷ record { name = bytes "old.sql"; is_dir = true }
    ∷ record { name = bytes "README"; is_dir = false }
    ∷ record { name = init; is_dir = false }
    ∷ []

migration_names-IsSorted_example :
    IsSorted (migration_names listing)
    × Perm (migration_names listing) (
        map
          (λ (e : DirEntry). e.name)
          (keep (λ e. not e.is_dir && has_suffix e.name (bytes ".sql")) listing))
migration_names-IsSorted_example = migration_names-IsSorted listing

abbrev empty : Store (List Str)
empty = record {
  migrations = [];
  rest = [];
  pragmas = [];
  closed = false;
  clock = λ n. 100;
  reads = 0;
  faults = [];
}

apply_migrations-again_example :
    let t = (apply_migrations exec_sql migrations empty).1 in
    apply_migrations exec_sql migrations t ≡ (none, t)
unfolding apply_migrations sort_strings keep has_suffix str_eq str_less parse_version index_byte
    contains
apply_migrations-again_example = apply_migrations-again exec_sql migrations empty refl refl

apply_migrations-IsOnce_example : IsOnce (apply_migrations exec_sql migrations empty).1
unfolding count_version
apply_migrations-IsOnce_example =
    apply_migrations-IsOnce exec_sql migrations empty (λ w. omega arith)

open_db-IsOpened_example :
    (m : Outcome (List Str) OpenError) × (open_db exec_sql migrations (some empty) ≡ some m)
    × IsOpened migrations m
open_db-IsOpened_example = open_db-IsOpened exec_sql migrations empty refl refl

-- The engine fails the statement that records the version.
abbrev interrupted : Store (List Str)
interrupted = record empty { faults = false ∷ false ∷ true ∷ [] }

apply_migration-stuck_example :
    let (e, t) = apply_migration exec_sql migrations init interrupted in
    (e ≡ some (record_migration (pos 1)))
    × ((apply_migration exec_sql migrations init t).0 ≡ some (exec_migration init))
unfolding parse_version count_version index_byte contains str_eq
apply_migration-stuck_example =
    apply_migration-stuck exec_sql migrations init (bytes "migrations/" ++ init) (pos 1) interrupted
      refl refl refl refl refl refl
