-- ===== src/Edge.antt =====
-- pkg/edge: the agent on an edge node, which relays commands from the cloud to the local bus.
pub mod Safety
pub mod Sync
pub mod Mirror
mod Examples
