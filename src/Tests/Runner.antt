-- ===== src/Tests/Runner.antt =====
-- A step that reads an issue, which runs at once.
use bm_agents_world.Common.{refl, none, some, [], ◌∷◌}
use bm_agents_world.Common.Dict.{get, set}
use bm_agents_world.Json.{Json}
use bm_agents_world.Broker.State.{Broker, make_broker, start_run, audit, payload_hash}
use bm_agents_world.Broker.Request.{request_action, request_known}
use bm_agents_world.Workflow.Compiler.{CompiledWorkflowStep}
use bm_agents_world.Workflow.Runner.{BrokerStepRunnerOptions, Meta, run_step}
use bm_agents_world.Workflow.Runner.Governed.{IsGoverned, run_step-IsGoverned}
use bm_agents_world.Tests.Samples.{host, action_store, context, read_issue, tally}

abbrev read_step : CompiledWorkflowStep
read_step = record {
  id = "read";
  agent = some "tester";
  tool = some "jira";
  skill = none;
  skills = [];
  action = none;
  kind = none;
  depends_on = [];
  parallel_group = none;
  wave = some 0;
}

abbrev options : BrokerStepRunnerOptions
options = record {
  resolve_capability = λ step. some (record { capability_id = "jira.read"; payload = none });
  build_context = λ step. context;
  resolve_agent_id = some (λ step. step.agent);
  on_unmapped = none;
  input_hash = λ capability payload. "hash";
  action_json = λ action. Json.null;
  status_name = λ status. "status";
}

abbrev reader : Broker action_store.State
reader = make_broker (read_issue ∷ []) ("jira" ∷ []) (some []) none

abbrev meta : Meta
meta = record {
  agent_id = some "tester";
  capability_id = some "jira.read";
  input_hash = some "hash";
  capability_action_id = none;
}

run_step-IsGoverned_example : IsGoverned host action_store options reader read_step
unfolding run_step request_action request_known make_broker get set start_run audit payload_hash
run_step-IsGoverned_example =
    run_step-IsGoverned host action_store options reader read_step meta (tally 0) refl
