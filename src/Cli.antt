-- ===== src/Cli.antt =====
-- The command-line program: cli/cli_args.c and cli/main.c.
pub mod Args
pub mod Main
pub mod Outcomes
