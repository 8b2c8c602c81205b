-- ===== src/Db/Migrations/Steps.antt =====
-- What every step of applyMigrations of internal/db/db.go has in common.
use oastrix.Db.Migrations.{
  count_version, migration_names, run_or_fail, DirEntry, apply_entries, MigrationError,
  MigrationsFs, AppliedMigration, Store, Outcome, and_then, statement, record_version, exec_script,
  run_migration, apply_migration, apply_names, apply_migrations,
}
use oastrix.Prelude.{
  ℤ, ltb, if_both, suc, ℕ, Str, bytes, Bool, true, false, Option, none, some, List, [], ◌∷◌, ◌++◌,
  Option-cases, inl, inr,
}
use oastrix.Db.Migrations.Versions.{parse_version}

-- A relation between the handle before and the handle after, which each change keeps.
pub record IsKept {S : Type 0} (R : Store S → Store S → Type 0) : Type 0 where
  pub same : (s : Store S) → R s s
  pub chain : (s t u : Store S) → R s t → R t u → R s u
  pub failing : (s : Store S) (fs : List Bool) → R s (record s { faults = fs })
  pub scripted : (s : Store S) (r : S) → R s (record s { rest = r })
  pub clocked : (s : Store S) (n : ℕ) → R s (record s { reads = n })
  pub added :
      (s : Store S) (m : AppliedMigration) → R s (record s { migrations = m ∷ s.migrations })

module _ {S : Type 0} (R : Store S → Store S → Type 0) (kept : IsKept R) where
  and_then-kept :
      {E : Type 0} (s : Store S) (m : Outcome S E) (k : Store S → Outcome S E)
      → R s m.1
      → ((t : Store S) → R t (k t).1)
      → R s (and_then m k).1
  and_then-kept s (some e, t) k h step = h
  and_then-kept s (none, t) k h step = kept.chain s t _ h (step t)

  statement-kept :
      {E : Type 0} (e : E) (run : Store S → Outcome S E) (s : Store S)
      → ((t : Store S) → R t (run t).1)
      → R s (statement e run s).1
  statement-kept e run s step = run_or_fail-kept s.faults
    where
      run_or_fail-kept : (fs : List Bool) → R s (run_or_fail fs e run s).1
      run_or_fail-kept [] = step s
      run_or_fail-kept (true ∷ fs) = kept.failing s fs
      run_or_fail-kept (false ∷ fs) = kept.chain s _ _ (kept.failing s fs) (step _)

  record_version-kept : (v : ℤ) (s : Store S) → R s (record_version v s).1
  record_version-kept v s =
      kept.chain s (record s { reads = suc s.reads }) _ (kept.clocked s (suc s.reads))
        (statement-kept _ _ (record s { reads = suc s.reads }) (λ t. kept.added t _))

  module _ (exec_sql : Str → S → Bool × S) (fs : MigrationsFs) where
    run_migration-kept :
        (name : Str) (v : ℤ) (s : Store S) → R s (run_migration exec_sql fs name v s).1
    run_migration-kept name v s = elim (Option-cases (fs.read_file (bytes "migrations/" ++ name))) [
      | inl missing ↦ rw (missing, run_migration) (kept.same s)
      | inr (content, found) ↦
          rw (found, run_migration)
            (and_then-kept s _ (record_version v)
              (statement-kept _ (exec_script exec_sql fs name content) s (λ t. kept.scripted t _))
              (record_version-kept v))
    ]

    apply_migration-kept : (name : Str) (s : Store S) → R s (apply_migration exec_sql fs name s).1
    unfolding apply_migration
    apply_migration-kept name s = elim (Option-cases (parse_version name)) [
      | inl unnamed ↦ rw (unnamed, apply_migration) (kept.same s)
      | inr (v, named) ↦
          rw (named, apply_migration)
            (statement-kept _ _ s (λ t.
              if_both (λ (m : Outcome S MigrationError). R t m.1)
                (ltb 0 (count_version v t.migrations)) (none, t)
                (run_migration exec_sql fs name v t) (kept.same t) (run_migration-kept name v t)))
    ]

    -- What each change of the handle keeps, the loop over the scripts keeps.
    pub apply_names-kept :
        (names : List Str) (s : Store S) → R s (apply_names exec_sql fs names s).1
    unfolding apply_names
    apply_names-kept [] s = kept.same s
    apply_names-kept (name ∷ names) s =
        and_then-kept s _ (apply_names exec_sql fs names) (apply_migration-kept name s)
          (apply_names-kept names)

    apply_entries-kept :
        (entries : Option (List DirEntry)) (s : Store S)
        → R s (apply_entries exec_sql fs entries s).1
    unfolding apply_entries
    apply_entries-kept none s = kept.same s
    apply_entries-kept (some entries) s = apply_names-kept (migration_names entries) s

    pub apply_migrations-kept : (s : Store S) → R s (apply_migrations exec_sql fs s).1
    unfolding apply_migrations
    apply_migrations-kept s =
        and_then-kept s _ _ (statement-kept _ _ s (λ t. kept.same t))
          (apply_entries-kept fs.read_dir)
