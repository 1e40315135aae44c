-- ===== src/Bridge.antt =====
-- From an utterance to the proposal of a request, crates/authz-llm-bridge/src.
mod Defs
pub mod Laws
unfoldable pub use Defs.*
