-- ===== src/Workflow/RunStore.antt =====
-- `InMemoryWorkflowRunStore` of apps/agent-window/src/server/workflow-run-store.ts. The reading of
-- the clock is an argument; the copies that the source makes are the values themselves.
pub mod Keys
use Prim.Native.String
use bm_agents_world.Common.{ℕ, String, Bool, Option, none, some, List, [], keep, sort_by, ◌==◌}
use bm_agents_world.Common.Dict.{Dict, get, set, values}
use bm_agents_world.Json.{Json}
use bm_agents_world.Workflow.Steps.{StepStatus, WorkflowStatus}

pub data RunStatus : Type 0 where
  running : RunStatus
  ended : WorkflowStatus → RunStatus

pub record WorkflowRunRecord : Type 0 where
  pub run_id : String
  pub workflow_id : String
  pub package_hash : Option String
  pub workflow_hash : String
  pub runtime_adapter : Option String
  pub status : RunStatus
  pub created_at : ℕ
  pub updated_at : ℕ

pub record WorkflowStepRunRecord : Type 0 where
  pub run_id : String
  pub step_id : String
  pub agent_id : Option String
  pub skill_id : Option String
  pub capability_id : Option String
  pub capability_action_id : Option String
  pub input_hash : Option String
  pub output_artifact_ids : List String
  pub status : StepStatus
  pub attempt : ℕ
  pub error : Option String
  pub result : Option Json
  pub started_at : Option ℕ
  pub finished_at : Option ℕ

pub record NewWorkflowRun : Type 0 where
  pub run_id : String
  pub workflow_id : String
  pub workflow_hash : String
  pub package_hash : Option String
  pub runtime_adapter : Option String

pub record WorkflowRunStore : Type 0 where
  pub runs : Dict WorkflowRunRecord
  pub steps : Dict WorkflowStepRunRecord

unfoldable pub step_key : String → String → String
step_key run_id step_id = String.◌++◌ run_id (String.◌++◌ "::" step_id)

unfoldable pub create_run :
    WorkflowRunStore → NewWorkflowRun → ℕ → WorkflowRunRecord × WorkflowRunStore
create_run store input now = elim (get input.run_id store.runs) [
  | some existing ↦ (existing, store)
  | none ↦
      let entry : WorkflowRunRecord = record {
        run_id = input.run_id;
        workflow_id = input.workflow_id;
        package_hash = input.package_hash;
        workflow_hash = input.workflow_hash;
        runtime_adapter = input.runtime_adapter;
        status = running;
        created_at = now;
        updated_at = now;
      } in
      (entry, record store { runs = set input.run_id entry store.runs })
]

unfoldable pub get_run_record : WorkflowRunStore → String → Option WorkflowRunRecord
get_run_record store run_id = get run_id store.runs

unfoldable pub set_run_status : WorkflowRunStore → String → RunStatus → ℕ → WorkflowRunStore
set_run_status store run_id status now = elim (get run_id store.runs) [
  | none ↦ store
  | some run ↦ record store {
    runs = set run_id (record run { status = status; updated_at = now }) store.runs;
  }
]

unfoldable pub put_step : WorkflowRunStore → WorkflowStepRunRecord → WorkflowRunStore
unfolding step_key
put_step store step = record store {
  steps = set (step_key step.run_id step.step_id) step store.steps;
}

unfoldable pub get_step : WorkflowRunStore → String → String → Option WorkflowStepRunRecord
unfolding step_key
get_step store run_id step_id = get (step_key run_id step_id) store.steps

unfoldable pub list_steps :
    (String → String → Bool) → WorkflowRunStore → String → List WorkflowStepRunRecord
list_steps le store run_id =
    sort_by (λ a b. le a.step_id b.step_id)
      (keep (λ step. step.run_id == run_id) (values store.steps))
