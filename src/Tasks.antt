-- ===== src/Tasks.antt =====
-- pkg/control-plane/tasks: tasks of robots, their in-memory store and the runner that executes them.
pub mod Types
pub mod Store
pub mod World
pub mod Steps
pub mod Runner
mod Examples
