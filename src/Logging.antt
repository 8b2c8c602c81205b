-- ===== src/Logging.antt =====
-- The logger: internal/logging/logging.go. The levels of zap, how they are read and whether a logger
-- can be built are parameters; the names of the fields of an entry and the service that is added to
-- it are left out.
use oastrix.Prelude.{
  lower_byte, ◌≡◌, refl, Str, bytes, Bool, true, false, Option, none, some, [], ◌∷◌, if◌then◌else◌,
  str_eq, to_lower,
}

pub record LogConfig : Type 0 where
  pub level : Str
  pub format : Str

-- The environment: the value of a variable, empty where it is not set.
abbrev pub Environment : Type 0
Environment = Str → Str

-- `getenv`: the default for a variable that is not set or is empty.
unfoldable pub get_env : Environment → Str → Str → Str
get_env env key default_val = elim (env key) [ [] ↦ default_val | x ∷ v ↦ x ∷ v ]

pub get_env_unset :
    (env : Environment) (key default_val : Str)
    → env key ≡ []
    → get_env env key default_val ≡ default_val
unfolding get_env
get_env_unset env key default_val unset = rw (unset, get_env) refl

unfoldable pub from_env : Environment → LogConfig
unfolding get_env
from_env env = record {
  level = get_env env (bytes "OASTRIX_LOG_LEVEL") (bytes "info");
  format = get_env env (bytes "OASTRIX_LOG_FORMAT") (bytes "json");
}

pub data LogError : Type 0 where
  invalid_level cannot_build : LogError

-- A logger: its level, and whether it is the one for development.
pub record Logger (L : Type 0) : Type 0 where
  pub level : L
  pub console : Bool

pub data Built (L : Type 0) : Type 0 where
  built : Logger L → Built L
  not_built : LogError → Built L

module _ {L : Type 0} (set_level : Str → Option L) (info : L) (can_build : Logger L → Bool) where
  -- The level: that of information where none is given.
  abbrev pub level_of : Str → Option L
  level_of [] = some info
  level_of (x ∷ text) = set_level (to_lower (x ∷ text))

  abbrev pub with_level : Bool → Option L → Built L
  with_level console none = not_built invalid_level
  with_level console (some level) =
      let logger : Logger L = record { level = level; console = console } in
      if can_build logger then built logger else not_built cannot_build

  -- `New`. A format other than "console", an empty one too, is JSON.
  unfoldable pub new_logger : LogConfig → Built L
  unfolding to_lower
  new_logger cfg = with_level (str_eq (to_lower cfg.format) (bytes "console")) (level_of cfg.level)

  -- With an environment that sets neither variable, the logger writes JSON, and has the level that
  -- zap reads from "info".
  pub new_logger-from_env :
      (env : Environment) (level : L)
      → env (bytes "OASTRIX_LOG_LEVEL") ≡ []
      → env (bytes "OASTRIX_LOG_FORMAT") ≡ []
      → set_level (bytes "info") ≡ some level
      → can_build (record { level = level; console = false }) ≡ true
      → new_logger (from_env env) ≡ built (record { level = level; console = false })
  unfolding new_logger from_env to_lower lower_byte str_eq
  new_logger-from_env env level l f known buildable =
      rw
        (
          get_env_unset env _ (bytes "info") l,
          get_env_unset env _ (bytes "json") f,
          known,
          buildable,
        )
        refl
