-- ===== src/Capability/Store.antt =====
-- The interface `CapabilityStore` of apps/agent-window/src/server/platform/capability-store.ts, as
-- operations on the state of the database. An operation that reads the clock is given the reading.
-- The laws are those that the broker relies on: what is saved is what is read, and the operations
-- on runs and audit events leave the actions alone.
use bm_agents_world.Common.{ℕ, String, ◌≡◌, ◌==◌, Option, some, List, if◌then◌else◌}
use bm_agents_world.Capability.{ExecutionContext, CapabilityAction, CapabilityRun, AuditEvent}

pub record CapabilityStore : Type 1 where
  pub State : Type 0
  pub upsert_run : ExecutionContext → ℕ → State → CapabilityRun × State
  pub get_run : String → State → Option CapabilityRun
  pub list_runs : ℕ → State → List CapabilityRun
  pub save_action : CapabilityAction → ℕ → State → State
  pub get_action : String → State → Option CapabilityAction
  pub list_actions_for_run : String → State → List CapabilityAction
  pub append_audit : AuditEvent → ExecutionContext → ℕ → State → State
  pub list_audit : ℕ → State → List AuditEvent
  pub get-save :
      (k : String) (a : CapabilityAction) (now : ℕ) (s : State)
      → get_action k (save_action a now s) ≡ (if a.id == k then some a else get_action k s)
  pub get-upsert :
      (k : String) (c : ExecutionContext) (now : ℕ) (s : State)
      → get_action k (upsert_run c now s).1 ≡ get_action k s
  pub get-append :
      (k : String) (e : AuditEvent) (c : ExecutionContext) (now : ℕ) (s : State)
      → get_action k (append_audit e c now s) ≡ get_action k s
