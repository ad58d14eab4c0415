-- ===== src/Webhooks.antt =====
-- pkg/control-plane/webhooks: the delivery of events to the URLs that subscribed to them.
pub mod Breaker
pub mod Delivery
pub mod Store
pub mod Dispatch
mod Examples
