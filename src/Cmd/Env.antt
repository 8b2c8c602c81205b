-- ===== src/Cmd/Env.antt =====
-- The environment and the exit of the command line: cmd/oastrix/root.go. `scan_int` is what
-- `fmt.Sscanf` reads with the format "%d", `none` where it fails.
use oastrix.Prelude.{Str, Option, none, some, [], ◌∷◌}
use oastrix.Logging.{Environment, LogConfig, Built, built, not_built, LogError, from_env}

unfoldable pub get_env_int : {Int : Type 0} → (Str → Option Int) → Environment → Str → Int → Int
get_env_int scan_int env key default_val = elim (env key) [
  | [] ↦ default_val
  | x ∷ v ↦ elim (scan_int (x ∷ v)) [ none ↦ default_val | some i ↦ i ]
]

-- `PersistentPreRunE`: no command runs without a logger.
unfoldable pub pre_run : {L : Type 0} → (LogConfig → Built L) → Environment → Option LogError
unfolding from_env
pre_run new_logger env = elim (new_logger (from_env env)) [
  | built logger ↦ none
  | not_built e ↦ some e
]
