-- ===== src/Tests.antt =====
-- The theorems of the other modules, applied to small inputs.
mod Samples
mod Broker
mod Policy
mod Workflow
mod Runs
mod Runner
mod Central
mod Tools
mod Deployment
mod Packs
