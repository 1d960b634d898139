-- ===== src/Pipeline.antt =====
-- dev_orchestrator/v8/pipeline.py: the coordinator of a run.
pub mod World
pub mod State
pub mod Enqueue
pub mod Waves
pub mod Advance
pub mod Phases
pub mod Projects
mod Tests
