-- ===== src/Cli.antt =====
-- cmd/clipbeam/cli: the command line.
pub mod RecvParse
pub mod Exit
mod Tests
