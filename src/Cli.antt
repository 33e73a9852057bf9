-- ===== src/Cli.antt =====
-- src/cli: the queue of typed lines.
pub mod InputQueue
