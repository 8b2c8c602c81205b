-- ===== src/Db/Migrations/Versions.antt =====
-- The version of a migration: `parseVersion` of internal/db/db.go, with `strconv.Atoi`.
use oastrix.Prelude.{
  take, index_byte, ◌≡◌, ◌↔◌, Str, Bool, true, false, Option, none, some, [], ◌∷◌, arith, ◌==◌, ℤ,
  pos, negsuc, atoi,
}

abbrev pub equal_version : ℤ → ℤ → Bool
equal_version (pos a) (pos b) = a == b
equal_version (negsuc a) (negsuc b) = a == b
equal_version _ _ = false

pub equal_version_iff : (v w : ℤ) → (equal_version v w ≡ true) ↔ (v ≡ w)
equal_version_iff (pos a) (pos b) = ground arith
equal_version_iff (negsuc a) (negsuc b) = ground arith
equal_version_iff (pos a) (negsuc b) = ground arith
equal_version_iff (negsuc a) (pos b) = ground arith

-- A version, where `Atoi` gives no error.
abbrev pub without_error : ℤ × Bool → Option ℤ
without_error (v, true) = some v
without_error (v, false) = none

-- `strings.SplitN(filename, "_", 2)`, whose first part must not be empty, and `strconv.Atoi` of it.
unfoldable pub parse_version : Str → Option ℤ
unfolding atoi
parse_version filename = elim (index_byte filename b'_') [
  | none ↦ none
  | some i ↦ elim (take i filename) [ [] ↦ none | c ∷ digits ↦ without_error (atoi (c ∷ digits)) ]
]
