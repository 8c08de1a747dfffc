-- ===== src/Lib.antt =====
-- BM Agents World: the governance core of the server in apps/agent-window/src/server.
--
-- The server lets agents act on outside systems only through capabilities. An agent, or a step of
-- a workflow, asks the broker for a capability; the broker checks the agent's grants, the
-- environment and the risk, stores an action with the hash of its payload, and either lets it run
-- at once or waits for a human's approval that is bound to that hash. A policy engine, with a
-- registry of approved connectors, takes the central decision. Packs bring workflows, which the
-- compiler turns into waves of steps.
--
-- The files and what they model, with paths below apps/agent-window/src/server:
--   Common, Common/*: lists, texts, maps and tests over native numbers.
--   Json, Canonical: JSON values and `canonicalize` (platform/canonical.ts).
--   Capability: the records and unions of platform/capability-types.ts. Capability/Store is the
--     interface `CapabilityStore` (platform/capability-store.ts) as a record of operations and
--     laws; Capability/Grants is platform/capability-grants.ts.
--   Policy, Policy/Bounds: `LocalPolicyEngine` and `OpaPolicyEngine` (platform/policy-engine.ts).
--     Policy/Connectors, with its children, is platform/connector-registry.ts.
--   Broker: `CapabilityBroker` (platform/capability-broker.ts). Broker/State has the state and the
--     lookups, Broker/Request `requestAction`, Broker/Decide `decideAction`, and Broker/Execute
--     `executeAction`, which is cut at its `await` into `begin_execution` and `settle_execution`.
--     Broker/System is the broker among its callers: a step relation in which calls come in any
--     order and adapters answer at any later time. The other children hold the proofs.
--   Workflow/Schema: workflow-schema.ts. Workflow/Waves and Workflow/Compiler: workflow-compiler.ts.
--   Workflow/Steps, Workflow/RunStore, Workflow/Runs: the types of workflow-executor.ts, the
--     in-memory store of workflow-run-store.ts, and `executeWorkflowRun` of
--     workflow-run-executor.ts, whose callback is cut at its `await` into `begin_step` and
--     `settle_step`. Workflow/Runs/History is the relation of their interleavings.
--   Workflow/Runner: `BrokerStepRunner` of workflow-broker-runner.ts, on the broker's model.
--   Central: `AsyncCapabilityBroker`, with a central policy
--     (platform/async-capability-broker.ts). `executeAction` is cut where it waits, so that two
--     executions can overlap.
--   Environment, Identity: platform/request-identity.ts; the environment variables, the headers
--     and Unicode's lower case are functions that the model is given.
--   Tools: platform/governed-capability-tools.ts, on the broker's model.
--   Workflow/Stateless: `executeWorkflow` of workflow-executor.ts.
--   Deployment, Deployment/Pilot: platform/deployment-readiness.ts and
--     platform/pilot-validation.ts, with the types of qa/qa-integration-config.ts.
--     Deployment/Conditions writes out the conditions that the readiness is compared with.
--   Packs: pack-agents.ts and pack-runtime.ts. Packs/QaTable, Packs/FrontendTable, Packs/Qa,
--     Packs/Frontend and Packs/Governance: the capabilities, grants and workflow bindings of the
--     packs, from qa/qa-capabilities.ts, qa/qa-grants.ts, qa/qa-governance.ts, their counterparts
--     under frontend/, and pack-governance.ts.
--   Common/ObjectLiteral: `object[name]` where the name is data, at the tables of the packs, the
--     packs of a lock and the projects of a configuration. Such a lookup also finds the members of
--     `Object.prototype`, such as `constructor`: the model has them with their `length`, which is
--     all that is used of them. An assignment at the name `__proto__` is not modelled otherwise than
--     at any other name.
--   Packs/Lock: pack-lock.ts, without its JSON text.
--   Tests: the theorems at concrete inputs.
--
-- A method is a function from the state to a result and the next state; an exception is a value of
-- a result type. The reading of the clock, the drawing of UUIDs, the digests and `localeCompare`
-- are parameters (`Host`, `Platform`), and so are the store behind the broker, the answers of the
-- adapters and those of the OPA server. The store's laws say that what is saved is what is read.
-- The loop of `computeWaves` takes fuel: one more than the number of steps is enough, since each
-- round places a step or ends the loop.
--
-- Not modelled: the bindings to SQLite, PostgreSQL and Supabase, the HTTP routes, the client and
-- the telemetry, which do I/O; the checks of the packages zod and yaml, whose results are inputs;
-- the adapters and prompts below frontend/ and qa/, and the runtime adapters.
pub mod Common
pub mod Json
pub mod Capability
pub mod Policy
pub mod Canonical
pub mod Broker
pub mod Workflow
pub mod Tests
pub mod Central
pub mod Deployment
pub mod Environment
pub mod Identity
pub mod Packs
pub mod Tools
