-- ===== src/Scheduling.antt =====
-- core/scheduling_authority/src: when which schedule is executed.
pub mod Types
pub mod Lifecycle
pub mod Retry
pub mod TimeEvaluator
pub mod DependencyGraph
pub mod TimeGraph
pub mod Registry
pub mod Evaluators
pub mod Authority
pub mod Execution
pub mod Calls
pub mod Tick
pub mod Staying
pub mod Resting
pub mod Trying
pub mod Retrying
mod Examples
