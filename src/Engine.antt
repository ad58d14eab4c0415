-- ===== src/Engine.antt =====
-- internal/robot: the execution engine, which runs the navigation tasks of the task runner.
pub mod Navigation
pub mod Executor
pub mod Lifecycle
mod Examples
