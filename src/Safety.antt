-- ===== src/Safety.antt =====
-- src/safety/mod.rs (the safety monitor) and src/executor/mod.rs (the sequencer that it can stop).
pub mod Monitor
pub mod Executor
pub mod MonitorLaws
pub mod ExecutorLaws
