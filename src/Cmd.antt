-- ===== src/Cmd.antt =====
-- The command line: cmd/oastrix.
pub mod Client
pub mod Env
pub mod Server
pub mod Run
