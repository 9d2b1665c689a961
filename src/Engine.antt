-- ===== src/Engine.antt =====
-- app/services/workflow_engine.py: requests on their way through the steps of a workflow.
pub mod Conditions
pub mod Process
pub mod Step
pub mod Progress
pub mod Invariant
pub mod Waiting
pub mod Decision
pub mod Samples
mod Tests
