-- ===== src/Runtime.antt =====
-- core/runtime_bootstrap/src: start, stop and certification of the platform's components.
pub mod Types
pub mod Lifecycle
pub mod Graph
pub mod Board
pub mod Certification
pub mod Startup
pub mod Orchestrator
pub mod Booting
pub mod Requests
mod Examples
