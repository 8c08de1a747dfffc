-- ===== src/Tests/Runs.antt =====
-- A run of one step, which is driven, and one that the store has as completed.
use bm_agents_world.Common.{String, Bool, true, ◌≡◌, ◌≢◌, refl, none, some, [], ◌∷◌, All, ◌==◌}
use bm_agents_world.Common.Dict.{get, set}
use bm_agents_world.Workflow.Compiler.{CompiledWorkflow, CompiledWorkflowStep}
use bm_agents_world.Workflow.Steps.{StepStatus}
use bm_agents_world.Workflow.RunStore.{WorkflowRunStore, WorkflowStepRunRecord, get_step, put_step}
use bm_agents_world.Workflow.Runs.{Run, InCall, WorkflowRunLaunch, begin_step, start_run_of}
use bm_agents_world.Workflow.Runs.Driving.{IsReady, IsDriven, begin_step_iff}
use bm_agents_world.Workflow.Runs.History.{
  Drive, nothing_yet, then_event, begins, launched, with_call, completed_stays,
}

abbrev build : CompiledWorkflowStep
build = record {
  id = "build";
  agent = none;
  tool = none;
  skill = some "write";
  skills = "write" ∷ [];
  action = none;
  kind = none;
  depends_on = [];
  parallel_group = none;
  wave = some 0;
}

abbrev release : CompiledWorkflow
release = record {
  id = "release";
  steps = build ∷ [];
  order = ("build" ∷ []) ∷ [];
  diagnostics = [];
  ok = true;
  content_hash = "hash";
}

abbrev launch : WorkflowRunLaunch
launch = record { run_id = "run"; package_hash = none; runtime_adapter = none }

abbrev built : WorkflowStepRunRecord
built = record {
  run_id = "run";
  step_id = "build";
  agent_id = none;
  skill_id = none;
  capability_id = none;
  capability_action_id = none;
  input_hash = none;
  output_artifact_ids = [];
  status = StepStatus.completed;
  attempt = 1;
  error = none;
  result = none;
  started_at = none;
  finished_at = none;
}

abbrev empty_store : WorkflowRunStore
empty_store = record { runs = []; steps = [] }

abbrev same_text : String → String → Bool
same_text a b = a == b

abbrev first_run : Run
first_run = start_run_of same_text empty_store release launch 5

begin_step_iff_example :
    (IsReady "run" first_run build
      → IsDriven true "run" 6 first_run build (begin_step true "run" 6 first_run build))
    × ((c : InCall)
        → (begin_step true "run" 6 first_run build).0 ≡ some c
        → IsReady "run" first_run build)
begin_step_iff_example = begin_step_iff true "run" 6 first_run build

abbrev resumed : Drive
resumed = launched same_text (put_step empty_store built) release launch 5

abbrev driven : Drive
driven = record {
  run = (begin_step true "run" 6 resumed.run build).1;
  calls = with_call (begin_step true "run" 6 resumed.run build).0 [];
}

completed_stays_example :
    (get_step driven.run.store "run" "build" ≡ some built)
    × All (λ c. c.step.id ≢ "build") driven.calls
unfolding get_step put_step get set
completed_stays_example =
    completed_stays true same_text (put_step empty_store built) release launch 5 "build" built
      driven refl refl (then_event nothing_yet (begins 6 build refl refl))
