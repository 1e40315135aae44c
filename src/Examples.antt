-- ===== src/Examples.antt =====
-- Tests: the theorems of the library at concrete inputs.
pub mod Toy
pub mod Kernel
pub mod Policies
pub mod Proposals
pub mod World
pub mod Gateway
pub mod Caches
pub mod Reports
pub mod Tables
pub mod Directory
pub mod Commands
pub mod Services
pub mod Releases
