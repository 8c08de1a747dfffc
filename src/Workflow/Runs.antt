-- ===== src/Workflow/Runs.antt =====
-- `executeWorkflowRun` of apps/agent-window/src/server/workflow-run-executor.ts. The callback that
-- drives a step is cut at its `await`: `begin_step` is what runs before it, and comes to a call of
-- the runner or to none, and `settle_step` is what runs after it. Each reading of the clock is an
-- argument.
pub mod Driving
pub mod History
use bm_agents_world.Common.{
  ℕ, suc, String, Bool, true, false, not, ◌&&◌, ◌||◌, Option, none, some, List, [], ◌∷◌, all, any,
  find, map, or_default, or_else, sort_by, if◌then◌else◌, ◌==◌, is_some,
}
use bm_agents_world.Common.Dict.{Dict, get, set}
use bm_agents_world.Json.{Json}
use bm_agents_world.Workflow.Compiler.{CompiledWorkflow, CompiledWorkflowStep, wave_le}
use bm_agents_world.Workflow.Steps.{
  StepStatus, WorkflowStatus, StepState, WorkflowRunResult, step_status_eq, is_gate,
}
use bm_agents_world.Workflow.RunStore.{
  WorkflowRunStore, WorkflowStepRunRecord, NewWorkflowRun, RunStatus, ended, create_run, get_step,
  put_step, list_steps, set_run_status,
}

pub data OutcomeStatus : Type 0 where
  completed failed awaiting_approval : OutcomeStatus

pub record GovernedStepOutcome : Type 0 where
  pub status : OutcomeStatus
  pub result : Option Json
  pub error : Option String
  pub agent_id : Option String
  pub capability_id : Option String
  pub capability_action_id : Option String
  pub input_hash : Option String
  pub output_artifact_ids : Option (List String)

pub record WorkflowRunLaunch : Type 0 where
  pub run_id : String
  pub package_hash : Option String
  pub runtime_adapter : Option String

-- `result` is none where the patch has no such key.
pub record Patch : Type 0 where
  pub agent_id : Option String
  pub skill_id : Option String
  pub capability_id : Option String
  pub capability_action_id : Option String
  pub input_hash : Option String
  pub output_artifact_ids : Option (List String)
  pub status : StepStatus
  pub attempt : Option ℕ
  pub error : Option String
  pub result : Option (Option Json)
  pub started_at : Option ℕ
  pub finished_at : Option ℕ

-- A patch with a status only.
abbrev pub only_status : StepStatus → Patch
only_status status = record {
  agent_id = none;
  skill_id = none;
  capability_id = none;
  capability_action_id = none;
  input_hash = none;
  output_artifact_ids = none;
  status = status;
  attempt = none;
  error = none;
  result = none;
  started_at = none;
  finished_at = none;
}

-- A dependency failed or was skipped; a gate waits for its approver.
abbrev pub skip_patch : ℕ → Patch
skip_patch now = record (only_status StepStatus.skipped) { finished_at = some now }

abbrev pub gate_patch : ℕ → ℕ → Patch
gate_patch now attempt = record (only_status StepStatus.awaiting_approval) {
  attempt = some attempt;
  started_at = some now;
}

-- How the runner is called: `resumes` with the capability action that the step is bound to.
pub data Call : Type 0 where
  runs : Call
  resumes : String → Call

pub record InCall : Type 0 where
  pub step : CompiledWorkflowStep
  pub call : Call
  pub attempt : ℕ
  pub started : ℕ

-- The state that the callbacks share.
pub record Run : Type 0 where
  pub store : WorkflowRunStore
  pub status : Dict StepStatus
  pub results : Dict (Option Json)

abbrev from_prior :
    {A : Type 0} → (WorkflowStepRunRecord → Option A) → Option WorkflowStepRunRecord → Option A
from_prior f none = none
from_prior f (some r) = f r

abbrev pub is_completed : StepStatus → Bool
is_completed s = step_status_eq s StepStatus.completed

-- The record that `persist` writes.
unfoldable pub patched :
    String → CompiledWorkflowStep → Option WorkflowStepRunRecord → Patch → WorkflowStepRunRecord
patched run_id step prior patch = record {
  run_id = run_id;
  step_id = step.id;
  agent_id = or_else patch.agent_id (from_prior (λ r. r.agent_id) prior);
  skill_id = or_else patch.skill_id (or_else (from_prior (λ r. r.skill_id) prior) step.skill);
  capability_id = or_else patch.capability_id (from_prior (λ r. r.capability_id) prior);
  capability_action_id =
      or_else patch.capability_action_id (from_prior (λ r. r.capability_action_id) prior);
  input_hash = or_else patch.input_hash (from_prior (λ r. r.input_hash) prior);
  output_artifact_ids =
      or_default
        (or_else patch.output_artifact_ids (from_prior (λ r. some r.output_artifact_ids) prior)) [];
  status = patch.status;
  attempt = or_default (or_else patch.attempt (from_prior (λ r. some r.attempt) prior)) 0;
  error =
      or_else patch.error
        (if is_completed patch.status then none else from_prior (λ r. r.error) prior);
  result = or_default patch.result (from_prior (λ r. r.result) prior);
  started_at = or_else patch.started_at (from_prior (λ r. r.started_at) prior);
  finished_at = or_else patch.finished_at (from_prior (λ r. r.finished_at) prior);
}

-- `persist`
unfoldable pub persist : String → Run → CompiledWorkflowStep → Patch → Run
unfolding patched
persist run_id r step patch =
    let next = patched run_id step (get_step r.store run_id step.id) patch in
    record r { store = put_step r.store next; status = set step.id next.status r.status }

-- The status map as it is at the start of a run, and the results.
unfoldable pub seed : List WorkflowStepRunRecord → Run → Run
seed [] r = r
seed (entry ∷ entries) r = seed entries (record r {
  status = set entry.step_id entry.status r.status;
  results =
      if is_completed entry.status then set entry.step_id entry.result r.results else r.results;
})

abbrev status_is : StepStatus → Option StepStatus → Bool
status_is s none = false
status_is s (some t) = step_status_eq t s

abbrev pub is_blocked : Dict StepStatus → String → Bool
is_blocked status dep =
    status_is StepStatus.failed (get dep status) || status_is StepStatus.skipped (get dep status)

abbrev pub is_finished : Dict StepStatus → String → Bool
is_finished status dep = status_is StepStatus.completed (get dep status)

-- A bound action is resumed, if the step awaits its approval and the runner can resume.
unfoldable pub call_for : Bool → Option WorkflowStepRunRecord → Call
call_for can_resume none = runs
call_for can_resume (some r) = elim r.capability_action_id [
  | none ↦ runs
  | some action ↦
      if step_status_eq r.status StepStatus.awaiting_approval && not (action == "") && can_resume
      then resumes action
      else runs
]

-- `(prior?.attempt ?? 0) + 1`
abbrev pub attempt_after : Option WorkflowStepRunRecord → ℕ
attempt_after prior = suc (or_default (from_prior (λ p. some p.attempt) prior) 0)

-- The callback up to its `await`, for a step that is not completed.
unfoldable pub begin_open :
    Bool
    → String
    → ℕ
    → Run
    → CompiledWorkflowStep
    → Option WorkflowStepRunRecord
    → Option InCall × Run
unfolding call_for persist
begin_open can_resume run_id now r step prior =
    if any (is_blocked r.status) step.depends_on
    then (none, persist run_id r step (skip_patch now))
    else if not (all (is_finished r.status) step.depends_on)
    then (none, if is_some prior then r else persist run_id r step (only_status StepStatus.pending))
    else (let attempt = attempt_after prior in
        if is_gate step then (none, persist run_id r step (gate_patch now attempt)) else (
          some (record {
            step = step;
            call = call_for can_resume prior;
            attempt = attempt;
            started = now;
          }),
          r,
        ))

-- The same for a step of which the store holds `prior`.
unfoldable pub begin_known :
    Bool
    → String
    → ℕ
    → Run
    → CompiledWorkflowStep
    → Option WorkflowStepRunRecord
    → Option InCall × Run
unfolding begin_open
begin_known can_resume run_id now r step none = begin_open can_resume run_id now r step none
begin_known can_resume run_id now r step (some prior) =
    if is_completed prior.status
    then (none, record r { results = set step.id prior.result r.results })
    else begin_open can_resume run_id now r step (some prior)

-- The callback up to its `await`.
unfoldable pub begin_step : Bool → String → ℕ → Run → CompiledWorkflowStep → Option InCall × Run
unfolding begin_known
begin_step can_resume run_id now r step =
    begin_known can_resume run_id now r step (get_step r.store run_id step.id)

abbrev pub outcome_status : OutcomeStatus → StepStatus
outcome_status completed = StepStatus.completed
outcome_status failed = StepStatus.failed
outcome_status awaiting_approval = StepStatus.awaiting_approval

-- What the outcome of a call changes.
abbrev pub outcome_patch : ℕ → InCall → GovernedStepOutcome → Patch
outcome_patch now c outcome = record {
  agent_id = outcome.agent_id;
  skill_id = none;
  capability_id = outcome.capability_id;
  capability_action_id = outcome.capability_action_id;
  input_hash = outcome.input_hash;
  output_artifact_ids = outcome.output_artifact_ids;
  status = outcome_status outcome.status;
  attempt = some c.attempt;
  error = outcome.error;
  result = some outcome.result;
  started_at = some c.started;
  finished_at = some now;
}

-- `if (outcome.status === "completed") results[id] = outcome.result`
abbrev pub keep_result : Bool → String → Option Json → Run → Run
keep_result false id result r = r
keep_result true id result r = record r { results = set id result r.results }

-- The callback from its `await` on.
unfoldable pub settle_step : String → ℕ → Run → InCall → GovernedStepOutcome → Run
unfolding persist
settle_step run_id now r c outcome =
    keep_result (is_completed (outcome_status outcome.status)) c.step.id outcome.result
      (persist run_id r c.step (outcome_patch now c outcome))

-- The entry that a launch makes in the store.
abbrev pub new_run : CompiledWorkflow → WorkflowRunLaunch → NewWorkflowRun
new_run compiled launch = record {
  run_id = launch.run_id;
  workflow_id = compiled.id;
  workflow_hash = compiled.content_hash;
  package_hash = launch.package_hash;
  runtime_adapter = launch.runtime_adapter;
}

-- The launch of a workflow that is not `ok`: none where the strict mode throws.
unfoldable pub refuse_run :
    Bool
    → WorkflowRunStore
    → CompiledWorkflow
    → WorkflowRunLaunch
    → ℕ
    → ℕ
    → Option WorkflowRunResult × WorkflowRunStore
refuse_run strict store compiled launch now later =
    let (_, store') = create_run store (new_run compiled launch) now in
    if strict then (none, store') else (
      some (record {
        run_id = launch.run_id;
        workflow_id = compiled.id;
        status = WorkflowStatus.failed;
        steps = [];
        paused_at = none;
        diagnostics = compiled.diagnostics;
      }),
      set_run_status store' launch.run_id (ended WorkflowStatus.failed) later,
    )

-- What comes before the waves, for a workflow that is `ok`.
unfoldable pub start_run_of :
    (String → String → Bool) → WorkflowRunStore → CompiledWorkflow → WorkflowRunLaunch → ℕ → Run
unfolding seed
start_run_of le store compiled launch now =
    let (_, store') = create_run store (new_run compiled launch) now in
    seed (list_steps le store' launch.run_id) (record { store = store'; status = []; results = [] })

-- `toStepState`
abbrev pub to_step_state : Dict (Option ℕ) → WorkflowStepRunRecord → StepState
to_step_state wave_of entry = record {
  id = entry.step_id;
  status = entry.status;
  wave = or_default (get entry.step_id wave_of) none;
  started_at = entry.started_at;
  finished_at = entry.finished_at;
  result = entry.result;
  error = entry.error;
}

abbrev state_is : StepStatus → StepState → Bool
state_is status state = step_status_eq state.status status

unfoldable pub run_status : List StepState → WorkflowStatus
run_status states =
    if any (state_is StepStatus.failed) states
    then WorkflowStatus.failed
    else if any (λ s. state_is StepStatus.awaiting_approval s || state_is StepStatus.pending s)
        states
    then WorkflowStatus.awaiting_approval
    else WorkflowStatus.completed

abbrev id_of : Option StepState → Option String
id_of none = none
id_of (some state) = some state.id

-- What comes after the waves.
unfoldable pub end_run :
    (String → String → Bool)
    → Run
    → CompiledWorkflow
    → String
    → ℕ
    → WorkflowRunResult × WorkflowRunStore
unfolding run_status
end_run le r compiled run_id now =
    let wave_of : Dict (Option ℕ) = waves compiled.steps [] in
    let states =
      sort_by (λ a b. wave_le le a.id a.wave b.id b.wave)
        (map (to_step_state wave_of) (list_steps le r.store run_id)) in
    let status = run_status states in
    (
      record {
        run_id = run_id;
        workflow_id = compiled.id;
        status = status;
        steps = states;
        paused_at = id_of (find (state_is StepStatus.awaiting_approval) states);
        diagnostics = [];
      },
      set_run_status r.store run_id (ended status) now,
    )
  where
    waves : List CompiledWorkflowStep → Dict (Option ℕ) → Dict (Option ℕ)
    waves [] d = d
    waves (step ∷ steps) d = waves steps (set step.id step.wave d)
