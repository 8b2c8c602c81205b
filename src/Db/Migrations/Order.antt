-- ===== src/Db/Migrations/Order.antt =====
-- The order in which applyMigrations of internal/db/db.go takes the scripts.
use mathlib.Core.List.Perm
use oastrix.Db.Migrations.{DirEntry, str_less, insert_string, sort_strings, migration_names}
use oastrix.Prelude.{
  has_suffix, not, keep, if_both, map, ◌≡◌, refl, ◌&&◌, Str, true, false, List, [], ◌∷◌, arith, All,
  All-map, Bool-cases, inl, inr, bytes,
}
use mathlib.Core.List.{Perm}

insert_string-Perm : (s : Str) (ts : List Str) → Perm (insert_string s ts) (s ∷ ts)
unfolding insert_string
insert_string-Perm s [] = Perm.rfl
insert_string-Perm s (t ∷ ts) = elim (Bool-cases (str_less t s)) [
  | inl later ↦
      rw (later, insert_string)
        (Perm.trans (Perm.cons t (insert_string-Perm s ts)) (Perm.swap s t ts))
  | inr here ↦ rw (here, insert_string) Perm.rfl
]

sort_strings-Perm : (ss : List Str) → Perm (sort_strings ss) ss
unfolding sort_strings
sort_strings-Perm [] = Perm.rfl
sort_strings-Perm (s ∷ ss) =
    Perm.trans (insert_string-Perm s (sort_strings ss)) (Perm.cons s (sort_strings-Perm ss))

str_less-asym : (s t : Str) → str_less s t ≡ true → str_less t s ≡ false
unfolding str_less
str_less-asym s [] h = cc
str_less-asym [] (y ∷ t) h = refl
str_less-asym (x ∷ s) (y ∷ t) h = ground (arith, str_less-asym s t)

str_less_trans : (r s t : Str) → str_less s r ≡ false → str_less t s ≡ false → str_less t r ≡ false
unfolding str_less
str_less_trans [] s t h k = refl
str_less_trans (x ∷ r) [] t h k = cc
str_less_trans (x ∷ r) (y ∷ s) [] h k = cc
str_less_trans (x ∷ r) (y ∷ s) (z ∷ t) h k = ground (arith, str_less_trans r s t)

-- No later string is before an earlier one.
abbrev pub IsSorted : List Str → Type 0
IsSorted [] = Unit
IsSorted (s ∷ ss) = All (λ t. str_less t s ≡ false) ss × IsSorted ss

All-insert_string :
    (P : Str → Type 0) (s : Str) (ts : List Str) → P s → All P ts → All P (insert_string s ts)
unfolding insert_string
All-insert_string P s [] h k = (h, tt)
All-insert_string P s (t ∷ ts) h k =
    if_both (All P) (str_less t s) (t ∷ insert_string s ts) (s ∷ t ∷ ts)
      (k.0, All-insert_string P s ts h k.1) (h, k)

insert_string-IsSorted : (s : Str) (ts : List Str) → IsSorted ts → IsSorted (insert_string s ts)
unfolding insert_string
insert_string-IsSorted s [] h = (tt, tt)
insert_string-IsSorted s (t ∷ ts) h = elim (Bool-cases (str_less t s)) [
  | inl later ↦
      rw (later, insert_string)
        (
          All-insert_string (λ u. str_less u t ≡ false) s ts (str_less-asym t s later) h.0,
          insert_string-IsSorted s ts h.1,
        )
  | inr here ↦
      rw (here, insert_string)
        ((here, All-map (λ u less. str_less_trans s t u here less) ts h.0), h)
]

sort_strings-IsSorted : (ss : List Str) → IsSorted (sort_strings ss)
unfolding sort_strings
sort_strings-IsSorted [] = tt
sort_strings-IsSorted (s ∷ ss) =
    insert_string-IsSorted s (sort_strings ss) (sort_strings-IsSorted ss)

-- The scripts are taken in the order of their names, byte by byte, and are those entries of the
-- directory that are no directories and end in `.sql`, each as often as it is listed.
pub migration_names-IsSorted :
    (entries : List DirEntry)
    → IsSorted (migration_names entries)
      × Perm (migration_names entries) (
          map
            (λ (e : DirEntry). e.name)
            (keep (λ e. not e.is_dir && has_suffix e.name (bytes ".sql")) entries))
unfolding migration_names
migration_names-IsSorted entries = (sort_strings-IsSorted _, sort_strings-Perm _)
