-- ===== src/Db/Migrations/Opening.antt =====
-- `Open` of internal/db/db.go. What `sql.Open` gives is a parameter.
use oastrix.Prelude.{
  inl, inr, append-nil, ◌∙◌, ◌⊎◌, ◌≡◌, refl, Str, bytes, Bool, true, false, Option, none, some,
  List, [], ◌∷◌, ◌++◌, arith, All, ap, sym, subst, append_assoc,
}
use oastrix.Db.Migrations.{
  MigrationError, MigrationsFs, DirEntry, Store, Outcome, statement, and_then, migration_names,
  apply_migrations,
}
use oastrix.Db.Migrations.Steps.{IsKept, apply_migrations-kept}
use oastrix.Db.Migrations.Laws.{IsApplied, and_then-inv, apply_migrations-IsApplied}

pub data OpenError : Type 0 where
  exec_pragma : Str → OpenError
  apply : MigrationError → OpenError

abbrev pub pragmas : List Str
pragmas =
    bytes "PRAGMA journal_mode=WAL;"
    ∷ bytes "PRAGMA foreign_keys=ON;"
    ∷ bytes "PRAGMA busy_timeout=5000;"
    ∷ bytes "PRAGMA synchronous=NORMAL;"
    ∷ []

module _ {S : Type 0} where
  -- The loop over the pragmas.
  unfoldable pub exec_pragmas : List Str → Store S → Outcome S OpenError
  exec_pragmas [] s = (none, s)
  exec_pragmas (p ∷ ps) s =
      and_then
        (statement (exec_pragma p) (λ t. (none, record t { pragmas = t.pragmas ++ p ∷ [] })) s)
        (exec_pragmas ps)

  abbrev pub as_open_error : Outcome S MigrationError → Outcome S OpenError
  as_open_error (none, s) = (none, s)
  as_open_error (some e, s) = (some (apply e), s)

  -- `_ = db.Close()` before each error that is returned.
  abbrev pub close_on_error : Outcome S OpenError → Outcome S OpenError
  close_on_error (none, s) = (none, s)
  close_on_error (some e, s) = (some e, record s { closed = true })

  -- `none` where `sql.Open` failed; else the outcome.
  unfoldable pub open_db :
      (Str → S → Bool × S) → MigrationsFs → Option (Store S) → Option (Outcome S OpenError)
  unfolding exec_pragmas
  open_db exec_sql fs none = none
  open_db exec_sql fs (some s) = some (
      close_on_error
        (and_then (exec_pragmas pragmas s) (λ t. as_open_error (apply_migrations exec_sql fs t))))

  abbrev SameHandle : Store S → Store S → Type 0
  SameHandle s t = (t.pragmas ≡ s.pragmas) × (t.closed ≡ s.closed)

  SameHandle-IsKept : IsKept SameHandle
  SameHandle-IsKept = record {
    same = λ s. (refl, refl);
    chain = λ s t u h k. (k.0 ∙ h.0, k.1 ∙ h.1);
    failing = λ s fs. (refl, refl);
    scripted = λ s r. (refl, refl);
    clocked = λ s n. (refl, refl);
    added = λ s m. (refl, refl);
  }

  -- One turn of the loop.
  set_pragma : Str → Store S → Outcome S OpenError
  set_pragma p s =
      statement (exec_pragma p) (λ t. (none, record t { pragmas = t.pragmas ++ p ∷ [] })) s

  set_pragma-done :
      (p : Str) (s : Store S)
      → (set_pragma p s).0 ≡ none
      → ((set_pragma p s).1.pragmas ≡ s.pragmas ++ p ∷ []) × ((set_pragma p s).1.closed ≡ s.closed)
  unfolding set_pragma
  set_pragma-done p s done = ground arith

  exec_pragmas-done :
      (ps : List Str) (s : Store S)
      → (exec_pragmas ps s).0 ≡ none
      → ((exec_pragmas ps s).1.pragmas ≡ s.pragmas ++ ps)
        × ((exec_pragmas ps s).1.closed ≡ s.closed)
  unfolding exec_pragmas set_pragma
  exec_pragmas-done [] s done = (sym (append-nil s.pragmas), refl)
  exec_pragmas-done (p ∷ ps) s done =
      let t = (set_pragma p s).1 in
      let (first, same) = and_then-inv (set_pragma p s) (exec_pragmas ps) done in
      let (here, live) = set_pragma-done p s first in
      let (later, live') =
        exec_pragmas-done ps t (subst (λ (m : Outcome S OpenError). m.0 ≡ none) same done) in
      subst
        (λ (m : Outcome S OpenError). (m.1.pragmas ≡ s.pragmas ++ p ∷ ps) × (m.1.closed ≡ s.closed))
        (sym same)
        (later ∙ ap (λ qs. qs ++ ps) here ∙ append_assoc s.pragmas (p ∷ []) ps, live' ∙ live)

  -- The handle is closed and an error given, or it is open, with the pragmas set and the scripts
  -- recorded.
  abbrev pub IsOpened : MigrationsFs → Outcome S OpenError → Type 0
  IsOpened fs m =
      ((e : OpenError) × (m.0 ≡ some e) × (m.1.closed ≡ true))
      ⊎ ((m.0 ≡ none)
          × (m.1.closed ≡ false)
          × (m.1.pragmas ≡ pragmas)
          × ((entries : List DirEntry) × (fs.read_dir ≡ some entries)
              × All (IsApplied m.1) (migration_names entries)))

  close_on_error-IsOpened :
      (fs : MigrationsFs) (m : Outcome S OpenError)
      → (m.0 ≡ none → IsOpened fs m)
      → IsOpened fs (close_on_error m)
  close_on_error-IsOpened fs (none, s) h = h refl
  close_on_error-IsOpened fs (some e, s) h = inl (e, refl, refl)

  as_open_error-none :
      (m : Outcome S MigrationError)
      → (as_open_error m).0 ≡ none
      → (m.0 ≡ none) × ((as_open_error m).1 ≡ m.1)
  as_open_error-none (none, s) h = (refl, refl)
  as_open_error-none (some e, s) h = cc

  migrated-IsOpened :
      (exec_sql : Str → S → Bool × S) (fs : MigrationsFs) (s : Store S)
      → s.pragmas ≡ pragmas
      → s.closed ≡ false
      → (as_open_error (apply_migrations exec_sql fs s)).0 ≡ none
      → IsOpened fs (as_open_error (apply_migrations exec_sql fs s))
  migrated-IsOpened exec_sql fs s set live done =
      let (good, same) = as_open_error-none (apply_migrations exec_sql fs s) done in
      let (entries, found, applied) = apply_migrations-IsApplied exec_sql fs s good in
      let (kept, open') = apply_migrations-kept SameHandle SameHandle-IsKept exec_sql fs s in
      inr (
        done,
        ap (λ t. t.closed) same ∙ open' ∙ live,
        ap (λ t. t.pragmas) same ∙ kept ∙ set,
        (
          entries,
          found,
          subst (λ t. All (IsApplied t) (migration_names entries)) (sym same) applied,
        ),
      )

  -- Opening a database whose file could be opened either fails, and the handle is then closed, or
  -- gives an open handle, on whose connection the four pragmas were set in their order, and in
  -- whose database each script of the directory is recorded.
  pub open_db-IsOpened :
      (exec_sql : Str → S → Bool × S) (fs : MigrationsFs) (s : Store S)
      → s.pragmas ≡ []
      → s.closed ≡ false
      → (m : Outcome S OpenError) × (open_db exec_sql fs (some s) ≡ some m) × IsOpened fs m
  unfolding open_db
  open_db-IsOpened exec_sql fs s fresh live =
      let migrate = λ (t : Store S). as_open_error (apply_migrations exec_sql fs t) in
      (
        close_on_error (and_then (exec_pragmas pragmas s) migrate),
        refl,
        close_on_error-IsOpened fs _ (λ done.
            let (first, same) = and_then-inv (exec_pragmas pragmas s) migrate done in
            let (set, open') = exec_pragmas-done pragmas s first in
            subst (IsOpened fs) (sym same) (
              migrated-IsOpened exec_sql fs (exec_pragmas pragmas s).1
                (set ∙ ap (λ ps. ps ++ pragmas) fresh) (open' ∙ live)
                (subst (λ (m : Outcome S OpenError). m.0 ≡ none) same done))),
      )
