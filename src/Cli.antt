-- ===== src/Cli.antt =====
-- cmd/logstat/main.go: the commands, their flags and their exit codes.
--
-- The texts on standard output and standard error are not modelled, and what the commands log is the
-- list of the messages, the latest first.
pub mod Flags
pub mod Setup
pub mod Clear
pub mod Zeroed
pub mod Outcome
pub mod Answered
pub mod Run
pub mod Owned
pub mod Closed
pub mod Tests
