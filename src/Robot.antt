-- ===== src/Robot.antt =====
-- internal/robot: the execution state of each robot and the engine that runs navigation tasks.
pub mod StateMachine
pub mod Manager
