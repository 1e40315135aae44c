-- ===== src/Proxy.antt =====
-- crates/authz-llm-proxy/src: the gateway between clients, the upstream model and the connectors.
pub mod Error
pub mod Config
pub mod Auth
pub mod Engine
pub mod Openai
pub mod Agents
pub mod State
pub mod Routes
pub mod Handlers
pub mod Startup
pub mod Pages
pub mod Connectors
