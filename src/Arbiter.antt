-- ===== src/Arbiter.antt =====
-- pkg/control-plane/arbiter: the safety test and the routing of commands.
pub mod Safety
pub mod Permitted
pub mod Routing
mod Examples
