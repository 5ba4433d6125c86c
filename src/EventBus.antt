-- ===== src/EventBus.antt =====
-- core/event_bus/src: the Institutional Event Bus, one module to each of its files.
pub mod Types
pub mod Queue
pub mod Registry
pub mod Subscriptions
pub mod Persistence
pub mod Bus
pub mod Delivery
pub mod Publish
pub mod Drain
mod Examples
