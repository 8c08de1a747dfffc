-- ===== src/Broker.antt =====
-- apps/agent-window/src/server/platform/capability-broker.ts: the broker that takes requests for
-- capabilities, has them approved and executes them. A method returns its result or exception and
-- the new state of the broker. The clock, the random UUIDs, SHA-256 and the order of
-- `localeCompare` are the host's. `execute_action` is split at its `await`: `begin_execution` runs
-- up to the call of the adapter, and `settle_execution` is given what the adapter returned or
-- threw.
pub mod State
pub mod Outcome
pub mod Request
pub mod Decide
pub mod Execute
pub mod Peek
pub mod Effects
pub mod Lifecycle
pub mod Soundness
pub mod Lookup
pub mod Preserved
pub mod Requested
pub mod System
pub mod Safety
pub mod Rules
pub mod Expiry
