-- ===== src/Workflow/Runner.antt =====
-- `BrokerStepRunner` of apps/agent-window/src/server/workflow-broker-runner.ts, on the broker's
-- model. What the pack supplies is a record of functions. Its methods are cut where they call
-- `executeAction`: they come to an outcome, to that call, or to an exception of the broker.
pub mod Governed
use bm_agents_world.Common.{
  ℕ, String, Bool, true, false, not, Option, none, some, List, [], ◌∷◌, concat, or_default,
  if◌then◌else◌, ◌==◌,
}
use bm_agents_world.Json.{Json, Items, Fields}
use bm_agents_world.Capability.{ExecutionContext, CapabilityAction, ActionStatus, AdapterResult}
use bm_agents_world.Capability.Store.{CapabilityStore}
use bm_agents_world.Broker.State.{Host, Broker, get_action}
use bm_agents_world.Broker.Outcome.{Outcome, returns, throws, BrokerError}
use bm_agents_world.Broker.Request.{request_action}
use bm_agents_world.Workflow.Compiler.{CompiledWorkflowStep}
use bm_agents_world.Workflow.Steps.{declares_side_effect, is_given}
use bm_agents_world.Workflow.Runs.{GovernedStepOutcome, OutcomeStatus}

pub record CapabilityStepBinding : Type 0 where
  pub capability_id : String
  pub payload : Option Json

pub data Unmapped : Type 0 where
  complete fail : Unmapped

-- `resolve_agent_id` is none where the pack leaves it out. `input_hash` is `canonicalHash` of the
-- capability and the payload, `action_json` the action as a value, and `status_name` the text of a
-- status.
pub record BrokerStepRunnerOptions : Type 0 where
  pub resolve_capability : CompiledWorkflowStep → Option CapabilityStepBinding
  pub build_context : CompiledWorkflowStep → ExecutionContext
  pub resolve_agent_id : Option (CompiledWorkflowStep → Option String)
  pub on_unmapped : Option Unmapped
  pub input_hash : String → Json → String
  pub action_json : CapabilityAction → Json
  pub status_name : ActionStatus → String

pub record Meta : Type 0 where
  pub agent_id : Option String
  pub capability_id : Option String
  pub input_hash : Option String
  pub capability_action_id : Option String

pub data Driving : Type 0 where
  comes_to : GovernedStepOutcome → Driving
  executes : Meta → String → Driving
  raises : BrokerError → Driving

abbrev pub plain_outcome : OutcomeStatus → Option String → Option Json → GovernedStepOutcome
plain_outcome status error result = record {
  status = status;
  result = result;
  error = error;
  agent_id = none;
  capability_id = none;
  capability_action_id = none;
  input_hash = none;
  output_artifact_ids = none;
}

abbrev pub outcome_with :
    Meta
    → String
    → OutcomeStatus
    → Option String
    → Option Json
    → Option (List String)
    → GovernedStepOutcome
outcome_with m action status error result artifacts = record {
  status = status;
  result = result;
  error = error;
  agent_id = m.agent_id;
  capability_id = m.capability_id;
  capability_action_id = some (or_default m.capability_action_id action);
  input_hash = m.input_hash;
  output_artifact_ids = artifacts;
}

-- What a step declares, as the message names it.
unfoldable pub declared : CompiledWorkflowStep → String
unfolding concat
declared step =
    if is_given step.tool
    then concat ("tool \"" ∷ or_default step.tool "" ∷ "\"" ∷ [])
    else concat ("action \"" ∷ or_default step.action "" ∷ "\"" ∷ [])

unfoldable pub run_unmapped : Option Unmapped → CompiledWorkflowStep → GovernedStepOutcome
unfolding declared concat
run_unmapped on_unmapped step =
    if declares_side_effect step
    then plain_outcome OutcomeStatus.failed
        (some (
          concat (
            "Step \""
            ∷ step.id
            ∷ "\" declares "
            ∷ declared step
            ∷ " but has no governed capability binding; refusing to run an unmapped side-effecting step."
            ∷ [])))
        none
    else elim (or_default on_unmapped complete) [
      | fail ↦
          plain_outcome OutcomeStatus.failed
            (some (concat ("Step \"" ∷ step.id ∷ "\" has no governed capability binding." ∷ [])))
            none
      | complete ↦
          plain_outcome OutcomeStatus.completed none
            (some (Json.obj (Fields.field "delegated" (Json.boolean true) Fields.end)))
    ]

-- `deriveAgentId`, where an empty text is as good as none.
unfoldable pub derive_agent_id : BrokerStepRunnerOptions → CompiledWorkflowStep → Option String
derive_agent_id options step = elim options.resolve_agent_id [
  | none ↦ some (options.build_context step).agent_id
  | some f ↦ f step
]

abbrev pub may_start : ActionStatus → Bool
may_start ActionStatus.ready = true
may_start ActionStatus.approved = true
may_start _ = false

-- `fromAction` up to its call of `executeAction`.
unfoldable pub from_action :
    BrokerStepRunnerOptions
    → CompiledWorkflowStep
    → CapabilityAction
    → Meta
    → ActionStatus
    → Driving
unfolding concat
from_action options step action m ActionStatus.rejected = comes_to (
    outcome_with m action.id OutcomeStatus.failed (some action.policy_reason)
      (some (options.action_json action)) none)
from_action options step action m ActionStatus.pending_approval = comes_to (
    outcome_with m action.id OutcomeStatus.awaiting_approval none
      (some (options.action_json action)) none)
from_action options step action m ActionStatus.ready = executes m action.id
from_action options step action m ActionStatus.approved = executes m action.id
from_action options step action m status = comes_to (
    outcome_with m action.id OutcomeStatus.failed
      (some (
        concat (
          "Unexpected action status \""
          ∷ options.status_name status
          ∷ "\" for step \""
          ∷ step.id
          ∷ "\"."
          ∷ [])))
      (some (options.action_json action)) none)

-- The elements of `artifactIds` that are texts.
abbrev text_items : Items → List String
text_items Items.nil = []
text_items (Items.cons (Json.text s) items) = s ∷ text_items items
text_items (Items.cons _ items) = text_items items

abbrev lookup : String → Fields → Option Json
lookup k Fields.end = none
lookup k (Fields.field j v fields) = if j == k then some v else lookup k fields

abbrev one_artifact : Option Json → List String
one_artifact (some (Json.text s)) = s ∷ []
one_artifact _ = []

abbrev artifacts_in : Option Json → Option Json → List String
artifacts_in (some (Json.arr items)) single = text_items items
artifacts_in _ single = one_artifact single

abbrev artifacts_of_output : Option Json → List String
artifacts_of_output (some (Json.obj fields)) =
    artifacts_in (lookup "artifactIds" fields) (lookup "artifactId" fields)
artifacts_of_output _ = []

abbrev output_of : Option AdapterResult → Option Json
output_of none = none
output_of (some r) = r.output

-- `artifactIdsOf`
unfoldable pub artifact_ids_of : CapabilityAction → List String
artifact_ids_of action = artifacts_of_output (output_of action.result)

abbrev error_of : Option AdapterResult → String
error_of none = "capability execution failed"
error_of (some r) = or_default r.error "capability execution failed"

abbrev is_ok : Option AdapterResult → Bool
is_ok none = false
is_ok (some r) = r.ok

-- The outcome of an action that was executed.
unfoldable pub from_executed :
    BrokerStepRunnerOptions → CapabilityAction → Meta → GovernedStepOutcome
unfolding artifact_ids_of
from_executed options action m =
    let by_id : Meta = record m { capability_action_id = some action.id } in
    if is_ok action.result
    then outcome_with by_id action.id OutcomeStatus.completed none
        (some (options.action_json action)) (some (artifact_ids_of action))
    else outcome_with by_id action.id OutcomeStatus.failed (some (error_of action.result))
        (some (options.action_json action)) none

abbrev is_executed : ActionStatus → Bool
is_executed ActionStatus.executed = true
is_executed _ = false

-- What comes of the answer to the request of a bound step.
unfoldable pub from_answer :
    BrokerStepRunnerOptions
    → CompiledWorkflowStep
    → String
    → CapabilityStepBinding
    → Json
    → Outcome CapabilityAction
    → Driving
unfolding from_action
from_answer options step agent binding payload (throws error) = raises error
from_answer options step agent binding payload (returns action) =
    from_action options step action
      (record {
        agent_id = some agent;
        capability_id = some binding.capability_id;
        input_hash = some (options.input_hash binding.capability_id payload);
        capability_action_id = none;
      })
      action.status

module _ (host : Host) (db : CapabilityStore) (options : BrokerStepRunnerOptions) where
  -- `run`, once the specialist is known.
  unfoldable pub run_bound :
      Broker db.State
      → CompiledWorkflowStep
      → CapabilityStepBinding
      → String
      → Driving × Broker db.State
  unfolding from_answer
  run_bound b step binding agent =
      let payload = or_default binding.payload (Json.obj Fields.end) in
      let context : ExecutionContext = record (options.build_context step) { agent_id = agent } in
      let (answer, b') = request_action host db b binding.capability_id context payload in
      (from_answer options step agent binding payload answer, b')

  abbrev pub no_identity : CompiledWorkflowStep → GovernedStepOutcome
  no_identity step =
      plain_outcome OutcomeStatus.failed
        (some (
          concat (
            "Cannot attribute governed step \"" ∷ step.id
            ∷ "\" to a specialist identity; refusing to run without authoritative agent identity."
            ∷ [])))
        none

  unfoldable pub run_mapped :
      Broker db.State
      → CompiledWorkflowStep
      → CapabilityStepBinding
      → Option String
      → Driving × Broker db.State
  unfolding run_bound
  run_mapped b step binding none = (comes_to (no_identity step), b)
  run_mapped b step binding (some agent) =
      if agent == "" then (comes_to (no_identity step), b) else run_bound b step binding agent

  unfoldable pub run_with :
      Broker db.State
      → CompiledWorkflowStep
      → Option CapabilityStepBinding
      → Driving × Broker db.State
  unfolding run_mapped run_unmapped derive_agent_id
  run_with b step none = (comes_to (run_unmapped options.on_unmapped step), b)
  run_with b step (some binding) = run_mapped b step binding (derive_agent_id options step)

  -- `run`
  unfoldable pub run_step : Broker db.State → CompiledWorkflowStep → Driving × Broker db.State
  unfolding run_with
  run_step b step = run_with b step (options.resolve_capability step)

  unfoldable pub resume_found : CompiledWorkflowStep → String → Option CapabilityAction → Driving
  unfolding from_action from_executed concat
  resume_found step k none = comes_to (
      plain_outcome OutcomeStatus.failed
        (some (
          concat (
            "Bound capability action \"" ∷ k ∷ "\" for step \"" ∷ step.id ∷ "\" was not found."
            ∷ [])))
        none)
  resume_found step k (some action) =
      let m : Meta = record {
        agent_id = some action.context.agent_id;
        capability_id = some action.capability_id;
        input_hash = none;
        capability_action_id = some action.id;
      } in
      if is_executed action.status
      then comes_to (from_executed options action m)
      else from_action options step action m action.status

  -- `resume`
  unfoldable pub resume_step :
      Broker db.State → CompiledWorkflowStep → String → Driving × Broker db.State
  unfolding resume_found
  resume_step b step k = let (found, b') = get_action host db b k in (resume_found step k found, b')
