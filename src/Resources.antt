-- ===== src/Resources.antt =====
-- core/resource_authority/src: who may use how much of which resource.
pub mod Types
pub mod Lifecycle
pub mod Availability
pub mod Allocation
pub mod Reservation
pub mod Ownership
pub mod Candidates
pub mod Utilization
pub mod Forecast
pub mod Registry
pub mod Authority
mod Examples
