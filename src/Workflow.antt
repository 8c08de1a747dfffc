-- ===== src/Workflow.antt =====
-- The workflow engine of apps/agent-window/src/server: from a pack's document to a compiled graph
-- of steps, and from there to runs whose truth is the server's own record of each step.
pub mod Schema
pub mod Waves
pub mod Compiler
pub mod Steps
pub mod RunStore
pub mod Runs
pub mod Runner
pub mod Stateless
