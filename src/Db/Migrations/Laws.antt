-- ===== src/Db/Migrations/Laws.antt =====
-- What applyMigrations of internal/db/db.go leaves recorded, and when it is run again.
use oastrix.Prelude.{
  ℤ, Option, bytes, ℕ, ◌≤◌, ◌<◌, ◌≡◌, refl, Str, Bool, none, some, List, [], ◌∷◌, arith, All, ◌++◌,
  sym, subst, Option-cases, inl, inr,
}
use oastrix.Db.Migrations.{
  apply_entries, create_table, and_then, MigrationError, MigrationsFs, DirEntry, Store, Outcome,
  count_version, migration_names, statement, record_version, exec_script, run_migration,
  apply_migration, apply_names, apply_migrations,
}
use oastrix.Db.Migrations.Steps.{IsKept, apply_names-kept}
use oastrix.Db.Migrations.Versions.{equal_version_iff, parse_version}

abbrev recorded_count : {S : Type 0} → ℤ → Store S → ℕ
recorded_count v s = count_version v s.migrations

-- A script that is recorded under the version in its name.
abbrev pub IsApplied : {S : Type 0} → Store S → Str → Type 0
IsApplied s name = (v : ℤ) × (parse_version name ≡ some v) × (0 < count_version v s.migrations)

-- No count of a version goes down.
abbrev Grows : {S : Type 0} → Store S → Store S → Type 0
Grows s t = (w : ℤ) → recorded_count w s ≤ recorded_count w t

Grows-IsKept : {S : Type 0} → IsKept (Grows {S = S})
unfolding count_version
Grows-IsKept = record {
  same = λ s w. omega arith;
  chain = λ s t u h k w. omega (arith, h w, k w);
  failing = λ s fs w. omega arith;
  scripted = λ s r w. omega arith;
  clocked = λ s n w. omega arith;
  added = λ s m w. ground arith;
}

module _ {S : Type 0} where
  pub and_then-inv :
      {E : Type 0} (m : Outcome S E) (k : Store S → Outcome S E)
      → (and_then m k).0 ≡ none
      → (m.0 ≡ none) × (and_then m k ≡ k m.1)
  and_then-inv (some e, s) k done = cc
  and_then-inv (none, s) k done = (refl, refl)

  record_version-recorded :
      (v : ℤ) (s : Store S)
      → (record_version v s).0 ≡ none
      → 0 < recorded_count v (record_version v s).1
  unfolding count_version
  record_version-recorded v s done = ground (arith, equal_version_iff v v)

  and_then-recorded :
      (v : ℤ) (m : Outcome S MigrationError)
      → (and_then m (record_version v)).0 ≡ none
      → 0 < recorded_count v (and_then m (record_version v)).1
  and_then-recorded v (some e, s) done = cc
  and_then-recorded v (none, s) done = record_version-recorded v s done

  module _ (exec_sql : Str → S → Bool × S) (fs : MigrationsFs) where
    run_migration-recorded :
        (name : Str) (v : ℤ) (s : Store S)
        → (run_migration exec_sql fs name v s).0 ≡ none
        → 0 < recorded_count v (run_migration exec_sql fs name v s).1
    run_migration-recorded name v s done =
        elim (Option-cases (fs.read_file (bytes "migrations/" ++ name))) [
          | inl missing ↦ cc (rw (missing, run_migration) at done)
          | inr (content, found) ↦
              rw (found, run_migration)
                (and_then-recorded v (statement _ (exec_script exec_sql fs name content) s)
                  (rw (found, run_migration) at done))
        ]

    apply_migration-recorded :
        (name : Str) (v : ℤ) (s : Store S)
        → parse_version name ≡ some v
        → (apply_migration exec_sql fs name s).0 ≡ none
        → 0 < recorded_count v (apply_migration exec_sql fs name s).1
    unfolding apply_migration
    apply_migration-recorded name v s named done = ground (arith, run_migration-recorded name v)

    apply_migration-IsApplied :
        (name : Str) (s : Store S)
        → (apply_migration exec_sql fs name s).0 ≡ none
        → IsApplied (apply_migration exec_sql fs name s).1 name
    unfolding apply_migration
    apply_migration-IsApplied name s done = elim (Option-cases (parse_version name)) [
      | inl unnamed ↦ cc (rw (apply_migration, unnamed) at done)
      | inr (v, named) ↦ (v, named, apply_migration-recorded name v s named done)
    ]

    IsApplied-grown :
        (name : Str) (names : List Str) (s : Store S)
        → IsApplied s name
        → IsApplied (apply_names exec_sql fs names s).1 name
    IsApplied-grown name names s (v, named, recorded) =
        (v, named, omega (arith, apply_names-kept Grows Grows-IsKept exec_sql fs names s v))

    apply_names-IsApplied :
        (names : List Str) (s : Store S)
        → (apply_names exec_sql fs names s).0 ≡ none
        → All (IsApplied (apply_names exec_sql fs names s).1) names
    unfolding apply_names
    apply_names-IsApplied [] s done = tt
    apply_names-IsApplied (name ∷ names) s done =
        let (first, same) = and_then-inv (apply_migration exec_sql fs name s) _ done in
        let t = (apply_migration exec_sql fs name s).1 in
        subst (λ (m : Outcome S MigrationError). All (IsApplied m.1) (name ∷ names)) (sym same)
          (
            IsApplied-grown name names t (apply_migration-IsApplied name s first),
            apply_names-IsApplied names t
                (subst (λ (m : Outcome S MigrationError). m.0 ≡ none) same done),
          )

    -- A script that is recorded is passed over.
    apply_migration-skipped :
        (name : Str) (s : Store S)
        → s.faults ≡ []
        → IsApplied s name
        → apply_migration exec_sql fs name s ≡ (none, s)
    unfolding apply_migration
    apply_migration-skipped name s sound (v, named, recorded) = ground arith

    apply_names-skipped :
        (names : List Str) (s : Store S)
        → s.faults ≡ []
        → All (IsApplied s) names
        → apply_names exec_sql fs names s ≡ (none, s)
    unfolding apply_names
    apply_names-skipped [] s sound h = refl
    apply_names-skipped (name ∷ names) s sound h =
        rw (apply_migration-skipped name s sound h.0) (apply_names-skipped names s sound h.1)

    apply_entries-IsApplied :
        (entries : Option (List DirEntry)) (s : Store S)
        → (apply_entries exec_sql fs entries s).0 ≡ none
        → (listed : List DirEntry) × (entries ≡ some listed)
          × All (IsApplied (apply_entries exec_sql fs entries s).1) (migration_names listed)
    unfolding apply_entries
    apply_entries-IsApplied none s done = cc
    apply_entries-IsApplied (some entries) s done =
        (entries, refl, apply_names-IsApplied (migration_names entries) s done)

    -- After the migrations were applied with no error, the directory was read, and each script of
    -- it has a version in its name that is recorded in the database.
    pub apply_migrations-IsApplied :
        (s : Store S)
        → let (e, t) = apply_migrations exec_sql fs s in
          e ≡ none
          → (entries : List DirEntry) × (fs.read_dir ≡ some entries)
            × All (IsApplied t) (migration_names entries)
    unfolding apply_migrations
    apply_migrations-IsApplied s done =
        let made = statement create_table (λ (u : Store S). (none, u)) s in
        let (first, same) = and_then-inv made (apply_entries exec_sql fs fs.read_dir) done in
        subst
          (λ (m : Outcome S MigrationError).
            (entries : List DirEntry) × (fs.read_dir ≡ some entries)
            × All (IsApplied m.1) (migration_names entries))
          (sym same)
          (apply_entries-IsApplied fs.read_dir made.1
            (subst (λ (m : Outcome S MigrationError). m.0 ≡ none) same done))

    -- Where the migrations were all applied, and no statement fails after that, applying them again,
    -- as the next start of the program does, succeeds and changes nothing: no script is executed a
    -- second time and no version recorded anew.
    pub apply_migrations-again :
        (s : Store S)
        → let (e, t) = apply_migrations exec_sql fs s in
          e ≡ none → t.faults ≡ [] → apply_migrations exec_sql fs t ≡ (none, t)
    unfolding apply_migrations apply_entries
    apply_migrations-again s done sound =
        let t = (apply_migrations exec_sql fs s).1 in
        let (entries, found, applied) = apply_migrations-IsApplied s done in
        rw found (ground (arith, apply_names-skipped (migration_names entries) t sound applied))
