-- ===== src/Db/Migrations/Once.antt =====
-- How often applyMigrations of internal/db/db.go records a version, and a run that is cut short.
use oastrix.Db.Migrations.{
  run_or_fail, and_then, MigrationError, apply_entries, exec_script, Outcome, apply_migrations,
  apply_names, record_version, run_migration, statement, MigrationsFs, DirEntry, Store,
  count_version, migration_names, apply_migration, exec_migration, record_migration,
}
use oastrix.Prelude.{
  ℤ, none, if◌then◌else◌, sym, subst, Option, ltb, Option-cases, ◌≤◌, ◌≡◌, refl, Str, Bool, true,
  false, some, List, [], ◌∷◌, arith, inl, inr, ◌++◌, bytes,
}
use oastrix.Db.Migrations.Versions.{equal_version_iff, parse_version}

-- No version is recorded twice.
abbrev pub IsOnce : {S : Type 0} → Store S → Type 0
IsOnce s = (w : ℤ) → count_version w s.migrations ≤ 1

module _ {S : Type 0} where
  record_version-IsOnce :
      (v : ℤ) (s : Store S)
      → count_version v s.migrations ≡ 0
      → IsOnce s
      → IsOnce (record_version v s).1
  unfolding count_version
  record_version-IsOnce v s new once w = ground (arith, equal_version_iff v w, once w)

  and_then-IsOnce :
      {E : Type 0} (m : Outcome S E) (k : Store S → Outcome S E)
      → IsOnce m.1
      → ((t : Store S) → IsOnce t → IsOnce (k t).1)
      → IsOnce (and_then m k).1
  and_then-IsOnce (some e, s) k once step = once
  and_then-IsOnce (none, s) k once step = step s once

  statement-IsOnce :
      {E : Type 0} (e : E) (run : Store S → Outcome S E) (s : Store S)
      → ((t : Store S) → IsOnce t → IsOnce (run t).1)
      → IsOnce s
      → IsOnce (statement e run s).1
  statement-IsOnce e run s step once = by_fault s.faults
    where
      by_fault : (fs : List Bool) → IsOnce (run_or_fail fs e run s).1
      by_fault [] = step s once
      by_fault (true ∷ fs) = once
      by_fault (false ∷ fs) = step (record s { faults = fs }) once

  recorded-IsOnce :
      (v : ℤ) (m : Outcome S MigrationError)
      → count_version v m.1.migrations ≡ 0
      → IsOnce m.1
      → IsOnce (and_then m (record_version v)).1
  recorded-IsOnce v (some e, s) new once = once
  recorded-IsOnce v (none, s) new once = record_version-IsOnce v s new once

module _ {S : Type 0} (exec_sql : Str → S → Bool × S) (fs : MigrationsFs) where
  -- A script that ran, and whose version was then not recorded, as the engine failed the last
  -- statement, is executed again by the next run; where the script cannot run a second time, as
  -- one that creates a table cannot, that run fails at it.
  pub apply_migration-stuck :
      (name content : Str) (v : ℤ) (s : Store S)
      → parse_version name ≡ some v
      → count_version v s.migrations ≡ 0
      → fs.read_file (bytes "migrations/" ++ name) ≡ some content
      → (exec_sql content s.rest).0 ≡ true
      → (exec_sql content (exec_sql content s.rest).1).0 ≡ false
      → s.faults ≡ false ∷ false ∷ true ∷ []
      → let (e, t) = apply_migration exec_sql fs name s in
        (e ≡ some (record_migration v))
        × ((apply_migration exec_sql fs name t).0 ≡ some (exec_migration name))
  unfolding apply_migration
  apply_migration-stuck name content v s named new found ran twice failing = ground arith

  executed-same :
      (name content : Str) (s : Store S)
      → (statement (exec_migration name) (exec_script exec_sql fs name content) s).1.migrations
        ≡ s.migrations
  executed-same name content s = ground arith

  run_migration-IsOnce :
      (name : Str) (v : ℤ) (s : Store S)
      → count_version v s.migrations ≡ 0
      → IsOnce s
      → IsOnce (run_migration exec_sql fs name v s).1
  run_migration-IsOnce name v s new once =
      elim (Option-cases (fs.read_file (bytes "migrations/" ++ name))) [
        | inl missing ↦ rw (missing, run_migration) once
        | inr (content, found) ↦
            let same = sym (executed-same name content s) in
            rw (found, run_migration)
              (recorded-IsOnce v
                (statement (exec_migration name) (exec_script exec_sql fs name content) s)
                (subst (λ ms. count_version v ms ≡ 0) same new)
                (subst (λ ms. (w : ℤ) → count_version w ms ≤ 1) same once))
      ]

  turn-IsOnce :
      (name : Str) (v : ℤ) (b : Bool) (s : Store S)
      → ltb 0 (count_version v s.migrations) ≡ b
      → IsOnce s
      → IsOnce (if b then (none, s) else run_migration exec_sql fs name v s).1
  turn-IsOnce name v true s counted once = once
  turn-IsOnce name v false s counted once = run_migration-IsOnce name v s (ground arith) once

  apply_migration-IsOnce :
      (name : Str) (s : Store S) → IsOnce s → IsOnce (apply_migration exec_sql fs name s).1
  unfolding apply_migration
  apply_migration-IsOnce name s once = elim (Option-cases (parse_version name)) [
    | inl unnamed ↦ rw (unnamed, apply_migration) once
    | inr (v, named) ↦
        rw (named, apply_migration)
          (statement-IsOnce _ _ s (λ t h. turn-IsOnce name v _ t refl h) once)
  ]

  apply_names-IsOnce :
      (names : List Str) (s : Store S) → IsOnce s → IsOnce (apply_names exec_sql fs names s).1
  unfolding apply_names
  apply_names-IsOnce [] s once = once
  apply_names-IsOnce (name ∷ names) s once =
      and_then-IsOnce _ (apply_names exec_sql fs names) (apply_migration-IsOnce name s once)
        (apply_names-IsOnce names)

  apply_entries-IsOnce :
      (entries : Option (List DirEntry)) (s : Store S)
      → IsOnce s
      → IsOnce (apply_entries exec_sql fs entries s).1
  unfolding apply_entries
  apply_entries-IsOnce none s once = once
  apply_entries-IsOnce (some entries) s once = apply_names-IsOnce (migration_names entries) s once

  -- However a run of the migrations ends, it leaves no version recorded twice, where none was.
  pub apply_migrations-IsOnce : (s : Store S) → IsOnce s → IsOnce (apply_migrations exec_sql fs s).1
  unfolding apply_migrations
  apply_migrations-IsOnce s once =
      and_then-IsOnce _ (apply_entries exec_sql fs fs.read_dir)
        (statement-IsOnce _ _ s (λ t h. h) once) (apply_entries-IsOnce fs.read_dir)
