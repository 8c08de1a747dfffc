-- ===== src/Tools.antt =====
-- apps/agent-window/src/server/platform/governed-capability-tools.ts: the tools through which an
-- agent reaches the broker. `agent` is the specialist that the tools are built for. The checks of
-- the parameters by zod, which come first, and the links for telemetry are not modelled.
pub mod Scope
pub mod Executions
use bm_agents_world.Common.{
  ℕ, suc, String, Bool, true, false, not, ◌&&◌, ◌||◌, Option, none, some, List, if◌then◌else◌, ◌==◌,
}
use bm_agents_world.Json.{Json}
use bm_agents_world.Environment.{Process, is_empty}
use bm_agents_world.Identity.{
  RequestIdentity, IdentityError, Checked, passes, fails, current_identity, can_access_context,
  assert_project_access,
}
use bm_agents_world.Capability.{
  ExecutionContext, CapabilityDefinition, CapabilityAction, CapabilityRun, EnvironmentName, env_eq,
}
use bm_agents_world.Capability.Store.{CapabilityStore}
use bm_agents_world.Broker.State.{
  Host, Broker, get_action, get_run, start_run, started_run, list_capabilities,
}
use bm_agents_world.Broker.Outcome.{Outcome, returns, throws, BrokerError, action_not_found}
use bm_agents_world.Broker.Request.{request_action}
use bm_agents_world.Broker.Execute.{Execution, begin_execution}

-- The parts of a surface that its tools read when they run, besides the text of their messages.
pub record GovernedToolSurface : Type 0 where
  pub pack_name : String
  pub default_agent_id : String
  pub label : String

-- The exceptions of the tools.
pub data ToolError : Type 0 where
  unidentified : IdentityError → ToolError
  run_not_found : String → ToolError
  run_forbidden : String → ToolError
  scope_mismatch : String → ToolError
  action_forbidden : ToolError
  broker : BrokerError → ToolError

pub data Answer {ℓ} (A : Type ℓ) : Type ℓ where
  gives : A → Answer A
  raises : ToolError → Answer A

pub record RunSummary : Type 0 where
  pub run_id : String
  pub project_id : String
  pub environment : EnvironmentName
  pub requested_by : String
  pub tenant_id : String

abbrev from_broker {ℓ} : {A : Type ℓ} → Outcome A → Answer A
from_broker (returns a) = gives a
from_broker (throws e) = raises (broker e)

-- The context of an action inside the run `run`, for a caller who names a project and an
-- environment.
unfoldable pub run_context :
    Process
    → GovernedToolSurface
    → String
    → RequestIdentity
    → String
    → EnvironmentName
    → Option CapabilityRun
    → Answer ExecutionContext
run_context p surface agent identity project environment none = raises (run_not_found surface.label)
run_context p surface agent identity project environment (some run) =
    if not (can_access_context p identity run.context)
    then raises (run_forbidden surface.label)
    else if not (run.context.project_id == project)
        || not (env_eq run.context.environment environment)
    then raises (scope_mismatch surface.label)
    else gives (record run.context { agent_id = agent })

module _ (host : Host) (db : CapabilityStore) (p : Process) (stored : Option RequestIdentity)
    (surface : GovernedToolSurface) (agent : String) where
  open host use {now, uuid}

  abbrev new_context : RequestIdentity → String → EnvironmentName → String → ℕ → ExecutionContext
  new_context identity project environment run_id at = record {
    run_id = run_id;
    user_id = identity.user_id;
    agent_id = agent;
    pack_id = surface.pack_name;
    project_id = project;
    environment = environment;
    tenant_id = identity.tenant_id;
    requested_at = at;
  }

  -- `contextFor` at a new run id, which is drawn first
  unfoldable pub context_for :
      Broker db.State → String → EnvironmentName → Answer ExecutionContext × Broker db.State
  unfolding current_identity assert_project_access
  context_for b project environment = elim (current_identity p stored) [
    | fails e ↦ (raises (unidentified e), record b { draws = suc b.draws })
    | passes identity ↦ elim (assert_project_access p identity project) [
      | fails e ↦ (raises (unidentified e), record b { draws = suc b.draws })
      | passes u ↦ (
        gives (new_context identity project environment (uuid b.draws) (now b.reads)),
        record b { draws = suc b.draws; reads = suc b.reads },
      )
    ]
  ]

  -- The tool that starts a run.
  unfoldable pub start_run_tool :
      Broker db.State → String → EnvironmentName → Answer RunSummary × Broker db.State
  unfolding context_for
  start_run_tool b project environment =
      let (answer, b') = context_for b project environment in
      elim answer [
        | raises e ↦ (raises e, b')
        | gives c ↦
            let run = started_run host db b' c in
            (
              gives (record {
                run_id = run.id;
                project_id = run.context.project_id;
                environment = run.context.environment;
                requested_by = run.context.user_id;
                tenant_id = run.context.tenant_id;
              }),
              start_run host db b' c,
            )
      ]

  -- The context in which an action is requested.
  unfoldable pub action_context :
      Broker db.State
      → RequestIdentity
      → Option String
      → String
      → EnvironmentName
      → Answer ExecutionContext × Broker db.State
  unfolding context_for run_context
  action_context b identity none project environment = context_for b project environment
  action_context b identity (some run_id) project environment =
      let (run, b') = get_run host db b run_id in
      (run_context p surface agent identity project environment run, b')

  -- The request itself.
  unfoldable pub request_in :
      Broker db.State
      → String
      → Json
      → Answer ExecutionContext
      → Answer CapabilityAction × Broker db.State
  request_in b capability payload (raises e) = (raises e, b)
  request_in b capability payload (gives c) =
      let (outcome, b') = request_action host db b capability c payload in (from_broker outcome, b')

  -- The tool that requests an action.
  unfoldable pub request_tool :
      Broker db.State
      → Option String
      → String
      → String
      → EnvironmentName
      → Json
      → Answer CapabilityAction × Broker db.State
  unfolding current_identity assert_project_access action_context request_in
  request_tool b run_id capability project environment payload = elim (current_identity p stored) [
    | fails e ↦ (raises (unidentified e), b)
    | passes identity ↦ elim (assert_project_access p identity project) [
      | fails e ↦ (raises (unidentified e), b)
      | passes u ↦
          let (c, b') = action_context b identity run_id project environment in
          request_in b' capability payload c
    ]
  ]

  -- What `actionForCurrentIdentity` makes of what the broker finds.
  unfoldable pub in_scope : Option CapabilityAction → Answer (Option CapabilityAction)
  unfolding current_identity can_access_context
  in_scope none = gives none
  in_scope (some a) = elim (current_identity p stored) [
    | fails e ↦ raises (unidentified e)
    | passes identity ↦
        if not (can_access_context p identity a.context)
        then raises action_forbidden
        else gives (some a)
  ]

  -- `actionForCurrentIdentity`, which is also the tool that reads an action: where that finds none
  -- the tool answers `action_not_found`.
  unfoldable pub get_tool :
      Broker db.State → String → Answer (Option CapabilityAction) × Broker db.State
  unfolding in_scope
  get_tool b k = let (found, b') = get_action host db b k in (in_scope found, b')

  unfoldable pub execute_scoped :
      Broker db.State
      → String
      → Answer (Option CapabilityAction)
      → Answer Execution × Broker db.State
  execute_scoped b k (raises e) = (raises e, b)
  execute_scoped b k (gives none) = (raises (broker action_not_found), b)
  execute_scoped b k (gives (some a)) =
      let (outcome, b') = begin_execution host db b k in (from_broker outcome, b')

  -- The tool that executes an action, up to the wait for the adapter.
  unfoldable pub execute_tool : Broker db.State → String → Answer Execution × Broker db.State
  unfolding get_tool execute_scoped
  execute_tool b k = let (answer, b') = get_tool b k in execute_scoped b' k answer
