-- ===== src/Tests/Packs.antt =====
-- The plan of the QA pack, a write of it, and a step that is bound.
use bm_agents_world.Common.{◌≡◌, true, refl, ◌⊎◌, none, some, [], ◌∷◌, All, inl, inr}
use bm_agents_world.Common.Dict.{get, set}
use bm_agents_world.Common.ObjectLiteral.{own_value, inherited_value, look, is_inherited}
use bm_agents_world.Json.{Json, text, obj, end, field}
use bm_agents_world.Environment.{boolean_env}
use bm_agents_world.Capability.Grants.{make_registry}
use bm_agents_world.Broker.State.{Broker, make_broker, payload_hash}
use bm_agents_world.Broker.Request.{request_action}
use bm_agents_world.Workflow.Compiler.{CompiledWorkflowStep}
use bm_agents_world.Workflow.Steps.{WorkflowRunContext}
use bm_agents_world.Workflow.Runner.{CapabilityStepBinding}
use bm_agents_world.Packs.{
  CompiledPack, GovernedAgentPlan, Planned, planned, failed, plan_governed_agents, not_null,
  text_field,
}
use bm_agents_world.Packs.FrontendTable.{frontend_capabilities, jira_comment_post}
use bm_agents_world.Packs.Frontend.{available_frontend_capabilities, frontend_capability_enabled}
use bm_agents_world.Packs.Qa.{qa_runtime_provider, qa_workflow_binding}
use bm_agents_world.Packs.Governance.{resolve_pack_governance, qa_governance, frontend_governance}
use bm_agents_world.Packs.Team.{IsMatched, plan_governed_agents-IsMatched}
use bm_agents_world.Packs.Catalogue.{IsHeldBack, capability-IsHeldBack}
use bm_agents_world.Packs.Binding.{IsSound, binding-IsOffered}
use bm_agents_world.Packs.Lock.{PackLock, diff_pack_lock}
use bm_agents_world.Packs.Lock.Drift.{hash_of, diff_pack_lock-hash_of}
use bm_agents_world.Tests.Samples.{host, action_store, context, no_process}

abbrev pack : CompiledPack
pack = record {
  id = "qa";
  supervisor = "qa-supervisor";
  agents =
      record { id = "qa-supervisor"; role = none; purpose = none; enabled = true }
      ∷ record { id = "browser-qa"; role = none; purpose = none; enabled = true }
      ∷ record { id = "release-notes"; role = none; purpose = none; enabled = true }
      ∷ [];
}

abbrev no_plan : GovernedAgentPlan
no_plan = record { pack_id = ""; supervisor = none; specialists = []; diagnostics = []; ok = true }

abbrev plan_in : Planned GovernedAgentPlan → GovernedAgentPlan
plan_in (planned p) = p
plan_in (failed m) = no_plan

abbrev plan : GovernedAgentPlan
plan = plan_in (plan_governed_agents pack qa_governance.runtime_provider true)

plan_governed_agents-IsMatched_example :
    All (IsMatched (make_registry qa_governance.grant_spec)) plan.specialists
unfolding plan_governed_agents resolve_pack_governance look get qa_runtime_provider
plan_governed_agents-IsMatched_example =
    plan_governed_agents-IsMatched "qa" qa_governance pack true plan refl (refl, (refl, (refl, tt)))
      refl

abbrev broker : Broker action_store.State
broker = make_broker frontend_capabilities [] (some []) none

capability-IsHeldBack_example :
    IsHeldBack jira_comment_post context
      (payload_hash host action_store Json.null)
      (request_action host action_store broker "frontend.jira.comment.post" context Json.null).0
unfolding get look set make_broker resolve_pack_governance available_frontend_capabilities
    frontend_capability_enabled boolean_env
capability-IsHeldBack_example =
    capability-IsHeldBack host action_store "frontend-angular" frontend_governance no_process
      jira_comment_post broker "frontend.jira.comment.post" context Json.null refl
      (inr (inr (inr (inr (inr (inl refl)))))) refl refl

abbrev step : CompiledWorkflowStep
step = record {
  id = "context";
  agent = none;
  tool = none;
  skill = some "qa.story.read-context";
  skills = "qa.story.read-context" ∷ [];
  action = none;
  kind = none;
  depends_on = [];
  parallel_group = none;
  wave = none;
}

abbrev run : WorkflowRunContext
run = record {
  run_id = "run";
  inputs = some (obj (field "storyId" (text "PCC-1") end));
  results = [];
}

abbrev bound : CapabilityStepBinding
bound = record {
  capability_id = "qa.jira.story.read";
  payload = some (obj (field "storyId" (text "PCC-1") end));
}

binding-IsOffered_example :
    IsSound no_process qa_governance (qa_governance.resolve_workflow_binding step run)
unfolding resolve_pack_governance look get
binding-IsOffered_example =
    binding-IsOffered "qa" qa_governance no_process step run refl
      (record { skill = refl; action = tt; skills = (refl, tt) })

step_is_bound : qa_governance.resolve_workflow_binding step run ≡ own_value bound
unfolding get look qa_workflow_binding not_null text_field
step_is_bound = refl

-- A step whose skill is named like a function that the table inherits is bound to that function.
step_is_bound_past_the_table :
    qa_governance.resolve_workflow_binding (record step { skill = some "constructor" }) run
    ≡ inherited_value 1
unfolding get look qa_workflow_binding
step_is_bound_past_the_table = refl

abbrev locked : PackLock
locked = record {
  lock_version = 2;
  packs = ("qa", record { version = "1"; content_hash = "h"; components = none }) ∷ [];
}

-- A new version with the same content.
abbrev relocked : PackLock
relocked = record {
  lock_version = 2;
  packs = ("qa", record { version = "2"; content_hash = "h"; components = none }) ∷ [];
}

-- A pack under such a name is not missed when it goes.
abbrev locked_past : PackLock
locked_past = record {
  lock_version = 2;
  packs = ("toString", record { version = "1"; content_hash = "h"; components = none }) ∷ [];
}

removal_is_missed :
    (diff_pack_lock (λ a b. true) locked_past (record locked_past { packs = [] })).ok ≡ true
unfolding get look diff_pack_lock
removal_is_missed = refl

diff_pack_lock-hash_of_example :
    (hash_of relocked.packs "qa" ≡ hash_of locked.packs "qa")
    ⊎ ((hash_of relocked.packs "qa" ≡ none) × (is_inherited "qa" ≡ true))
unfolding get look diff_pack_lock
diff_pack_lock-hash_of_example = diff_pack_lock-hash_of (λ a b. true) locked relocked "qa" refl
