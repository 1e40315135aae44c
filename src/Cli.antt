-- ===== src/Cli.antt =====
-- crates/authz-cli/src: the commands that operators give.
pub mod State
pub mod Directory
pub mod Policies
pub mod Decisions
pub mod Main
pub mod Moves
pub mod Laws
pub mod Discovery
pub mod Lifecycle
pub mod Successes
pub mod Release
pub mod Outcomes
pub mod Verdicts
