-- ===== src/Workflow/Stateless.antt =====
-- `executeWorkflow` of apps/agent-window/src/server/workflow-executor.ts. The runner's answers are
-- an argument: what the call for a step comes to, `threw` with the message of an exception. The
-- steps of a wave touch their own states only, so the model takes them in order; it gives those of
-- one wave the same two readings of the clock.
use bm_agents_world.Common.{
  ℕ, String, Bool, true, false, not, ◌||◌, Option, none, some, List, [], ◌∷◌, all, any, find,
  includes, or_default, sort_by, if◌then◌else◌,
}
use bm_agents_world.Common.Dict.{Dict, get, set, values}
use bm_agents_world.Json.{Json, Fields}
use bm_agents_world.Workflow.Compiler.{CompiledWorkflow, CompiledWorkflowStep, wave_le}
use bm_agents_world.Workflow.Steps.{
  StepStatus, WorkflowStatus, StepState, WorkflowRunResult, step_status_eq, is_gate,
}

pub data StepOutcome : Type 0 where
  completed : Option Json → StepOutcome
  failed : Option Json → Option String → StepOutcome
  awaiting_approval : Option Json → Option String → StepOutcome
  threw : String → StepOutcome

pub record Walk : Type 0 where
  pub states : Dict StepState
  pub results : Dict (Option Json)

abbrev has_status : StepStatus → Option StepState → Bool
has_status s none = false
has_status s (some state) = step_status_eq state.status s

abbrev completed_in : Dict StepState → String → Bool
completed_in states id = has_status StepStatus.completed (get id states)

abbrev blocked_in : Dict StepState → String → Bool
blocked_in states id =
    has_status StepStatus.failed (get id states) || has_status StepStatus.skipped (get id states)

unfoldable pub first_states : List CompiledWorkflowStep → Dict StepState → Dict StepState
first_states [] states = states
first_states (step ∷ steps) states = first_states steps (
    set step.id
      (record {
        id = step.id;
        status = StepStatus.pending;
        wave = step.wave;
        started_at = none;
        finished_at = none;
        result = none;
        error = none;
      })
      states)

abbrev change_state : String → (StepState → StepState) → Dict StepState → Dict StepState
change_state id f states = elim (get id states) [
  | none ↦ states
  | some state ↦ set id (f state) states
]

unfoldable pub step_by_id : List CompiledWorkflowStep → String → Option CompiledWorkflowStep
step_by_id steps id = get id (index steps [])
  where
    index : List CompiledWorkflowStep → Dict CompiledWorkflowStep → Dict CompiledWorkflowStep
    index [] d = d
    index (step ∷ more) d = index more (set step.id step d)

-- The loop over a wave: the states after it, and the steps to run.
unfoldable pub plan_wave :
    List CompiledWorkflowStep → List String → List String → Walk → List CompiledWorkflowStep × Walk
unfolding step_by_id
plan_wave steps done [] w = ([], w)
plan_wave steps done (id ∷ ids) w = elim (step_by_id steps id) [
  | none ↦ plan_wave steps done ids w
  | some step ↦
      if includes done id
      then plan_wave steps done ids (record w {
        states =
            change_state id
              (λ s. record s {
                status = StepStatus.completed;
                result = or_default (get id w.results) none;
              })
              w.states;
      })
      else if all (completed_in w.states) step.depends_on
      then (let rest = plan_wave steps done ids w in (step ∷ rest.0, rest.1))
      else if any (blocked_in w.states) step.depends_on
      then plan_wave steps done ids (record w {
        states = change_state id (λ s. record s { status = StepStatus.skipped }) w.states;
      })
      else plan_wave steps done ids w
]

abbrev ended_as : StepStatus → Option Json → Option String → StepState → StepState
ended_as status result error s = record s { status = status; result = result; error = error }

abbrev pub answer_state : StepOutcome → StepState → StepState
answer_state (completed result) s = ended_as StepStatus.completed result none s
answer_state (failed result error) s = ended_as StepStatus.failed result error s
answer_state (awaiting_approval result error) s =
    ended_as StepStatus.awaiting_approval result error s
answer_state (threw message) s = record s { status = StepStatus.failed; error = some message }

abbrev pub answer_results : String → StepOutcome → Dict (Option Json) → Dict (Option Json)
answer_results id (completed result) results = set id result results
answer_results id _ results = results

abbrev approved_json : Json
approved_json = Json.obj (Fields.field "approved" (Json.boolean true) Fields.end)

-- One step of a wave: started at one reading of the clock, finished at another.
unfoldable pub run_one :
    List String → (CompiledWorkflowStep → StepOutcome) → ℕ → ℕ → CompiledWorkflowStep → Walk → Walk
run_one approvals answer start stop step w =
    let stamp : StepState → StepState =
      λ s. record s { started_at = some start; finished_at = some stop } in
    if is_gate step
    then if includes approvals step.id
      then record {
        states =
            change_state step.id
              (λ s. stamp (record s { status = StepStatus.completed; result = some approved_json }))
              w.states;
        results = set step.id (some approved_json) w.results;
      }
      else record w {
        states =
            change_state step.id (λ s. stamp (record s { status = StepStatus.awaiting_approval }))
              w.states;
      }
    else record {
      states = change_state step.id (λ s. stamp (answer_state (answer step) s)) w.states;
      results = answer_results step.id (answer step) w.results;
    }

unfoldable pub run_all :
    List String
    → (CompiledWorkflowStep → StepOutcome)
    → ℕ
    → ℕ
    → List CompiledWorkflowStep
    → Walk
    → Walk
unfolding run_one
run_all approvals answer start stop [] w = w
run_all approvals answer start stop (step ∷ steps) w =
    run_all approvals answer start stop steps (run_one approvals answer start stop step w)

-- The waves, each with its two readings of the clock.
unfoldable pub run_waves :
    List String
    → List String
    → (CompiledWorkflowStep → StepOutcome)
    → (ℕ → ℕ)
    → ℕ
    → List CompiledWorkflowStep
    → List (List String)
    → Walk
    → Walk
unfolding plan_wave run_all
run_waves approvals done answer now n steps [] w = w
run_waves approvals done answer now n steps (wave ∷ waves) w =
    let (ready, w') = plan_wave steps done wave w in
    run_waves approvals done answer now (ℕ.suc (ℕ.suc n)) steps waves
      (run_all approvals answer (now n) (now (ℕ.suc n)) ready w')

abbrev overall : List StepState → WorkflowStatus
overall states =
    if any (λ s. step_status_eq s.status StepStatus.failed) states
    then WorkflowStatus.failed
    else if any
        (λ s.
          step_status_eq s.status StepStatus.awaiting_approval
          || step_status_eq s.status StepStatus.pending)
        states
    then WorkflowStatus.awaiting_approval
    else WorkflowStatus.completed

abbrev paused : Option StepState → Option String
paused none = none
paused (some state) = some state.id

-- `executeWorkflow`, none where the strict mode throws.
unfoldable pub execute_workflow :
    (String → String → Bool)
    → CompiledWorkflow
    → String
    → List String
    → List String
    → Dict (Option Json)
    → (CompiledWorkflowStep → StepOutcome)
    → (ℕ → ℕ)
    → Bool
    → Option WorkflowRunResult
unfolding run_waves first_states
execute_workflow le compiled run_id approvals done results answer now strict =
    if not compiled.ok
    then if strict
      then none
      else some (record {
        run_id = run_id;
        workflow_id = compiled.id;
        status = WorkflowStatus.failed;
        steps = [];
        paused_at = none;
        diagnostics = compiled.diagnostics;
      })
    else (let w =
          run_waves approvals done answer now 0 compiled.steps compiled.order
            (record { states = first_states compiled.steps []; results = results }) in
        let states = sort_by (λ a b. wave_le le a.id a.wave b.id b.wave) (values w.states) in
        some (record {
          run_id = run_id;
          workflow_id = compiled.id;
          status = overall states;
          steps = states;
          paused_at =
              paused (find (λ s. step_status_eq s.status StepStatus.awaiting_approval) states);
          diagnostics = [];
        }))
