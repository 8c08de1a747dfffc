-- ===== src/Workflow/Runner/Governed.antt =====
-- What a step of a workflow needs so that the runner executes it.
use bm_agents_world.Common.{
  String, true, false, ◌≡◌, refl, sym, ap, ◌∙◌, Option, none, some, Bool-cases, Option-cases, inl,
  inr, ◌==◌, or_default,
}
use bm_agents_world.Common.Dict.{get}
use bm_agents_world.Json.{Json, Fields}
use bm_agents_world.Capability.{
  ExecutionContext, CapabilityDefinition, CapabilityAction, ActionStatus, requires_human,
}
use bm_agents_world.Capability.Store.{CapabilityStore}
use bm_agents_world.Broker.State.{Host, Broker}
use bm_agents_world.Broker.Outcome.{throws, BrokerError, unknown_capability}
use bm_agents_world.Broker.Request.{request_action, effective_risk}
use bm_agents_world.Broker.Rules.{
  Passes, Answer, Answered, at_once, after_approval, never, request_action-Answered,
}
use bm_agents_world.Capability.Grants.{CapabilityGrantRegistry}
use bm_agents_world.Workflow.Runs.{GovernedStepOutcome}
use bm_agents_world.Workflow.Compiler.{CompiledWorkflowStep}
use bm_agents_world.Workflow.Runner.{
  BrokerStepRunnerOptions, CapabilityStepBinding, Meta, comes_to, executes, raises, from_action,
  from_answer, may_start, derive_agent_id, run_bound, run_mapped, run_with, run_step,
}

starts_action :
    (options : BrokerStepRunnerOptions) (step : CompiledWorkflowStep) (a : CapabilityAction)
    (m m' : Meta) (k : String) (s : ActionStatus)
    → from_action options step a m s ≡ executes m' k
    → may_start s ≡ true
unfolding from_action
starts_action options step a m m' k ActionStatus.ready h = refl
starts_action options step a m m' k ActionStatus.approved h = refl
starts_action options step a m m' k _ h = absurd (no_call h)
  where
    no_call : {o : GovernedStepOutcome} → comes_to o ≡ executes m' k → ⊥
    no_call h = cc

module _ (host : Host) (db : CapabilityStore) (options : BrokerStepRunnerOptions) where
  -- The context in which the broker is asked.
  abbrev pub context_as : CompiledWorkflowStep → String → ExecutionContext
  context_as step agent = record (options.build_context step) { agent_id = agent }

  -- The step is bound to a registered capability, which passes the broker's checks for the
  -- specialist of the step, at a risk that needs no human.
  pub record IsGoverned (b : Broker db.State) (step : CompiledWorkflowStep) : Type 0 where
    pub binding : CapabilityStepBinding
    pub bound : options.resolve_capability step ≡ some binding
    pub agent : String
    pub identified : derive_agent_id options step ≡ some agent
    pub named : (agent == "") ≡ false
    pub definition : CapabilityDefinition
    pub registered : get binding.capability_id b.definitions ≡ some definition
    pub passes : Passes b.grants definition binding.capability_id (context_as step agent)
    pub low : requires_human (effective_risk definition (context_as step agent).environment) ≡ false

  unknown_throws :
      (b : Broker db.State) (k : String) (c : ExecutionContext) (payload : Json)
      → get k b.definitions ≡ none
      → (request_action host db b k c payload).0 ≡ throws (unknown_capability k)
  unfolding request_action
  unknown_throws b k c payload missing = rw (missing, request_action) refl

  -- An action that the runner starts was ready when it was requested.
  answer_low :
      (grants : Option CapabilityGrantRegistry) (d : CapabilityDefinition) (k : String)
      (c : ExecutionContext) (payload : Json) (a : CapabilityAction)
      → Answer host db grants d k c payload a
      → may_start a.status ≡ true
      → Passes grants d k c × (requires_human (effective_risk d c.environment) ≡ false)
  answer_low grants d k c payload a (at_once p low s o) h = (p, low)
  answer_low grants d k c payload a (after_approval p r s q e f g i) h =
      absurd (true_false (sym h ∙ ap may_start s))
    where
      true_false : true ≡ false → ⊥
      true_false e = cc
  answer_low grants d k c payload a (never n s o) h = absurd (true_false (sym h ∙ ap may_start s))
    where
      true_false : true ≡ false → ⊥
      true_false e = cc

  bound-IsGoverned :
      (b : Broker db.State) (step : CompiledWorkflowStep) (binding : CapabilityStepBinding)
      (agent : String) (m : Meta) (k : String)
      → (run_bound host db options b step binding agent).0 ≡ executes m k
      → options.resolve_capability step ≡ some binding
      → derive_agent_id options step ≡ some agent
      → (agent == "") ≡ false
      → IsGoverned b step
  unfolding run_bound
  bound-IsGoverned b step binding agent m k h bound identified named =
      elim (Option-cases (get binding.capability_id b.definitions)) [
        | inl missing ↦ absurd (
            no_raise (
              unfold from_answer in
              sym (
                ap (from_answer options step agent binding payload)
                  (unknown_throws b binding.capability_id context payload missing))
              ∙ h))
        | inr (d, e) ↦
            let answered : Answered host db b.grants d binding.capability_id context payload
                (request_action host db b binding.capability_id context payload) =
              request_action-Answered host db b d binding.capability_id context payload e in
            let (p, low) =
              answer_low b.grants d binding.capability_id context payload answered.action
                answered.answer
                (starts_action options step answered.action _ m k answered.action.status (
                  unfold from_answer in
                  sym (ap (from_answer options step agent binding payload) answered.returned)
                  ∙ h)) in
            record {
              binding = binding;
              bound = bound;
              agent = agent;
              identified = identified;
              named = named;
              definition = d;
              registered = e;
              passes = p;
              low = low;
            }
      ]
    where
      payload : Json
      payload = or_default binding.payload (Json.obj Fields.end)

      context : ExecutionContext
      context = context_as step agent

      no_raise : {e : BrokerError} → raises e ≡ executes m k → ⊥
      no_raise e = cc

  mapped-IsGoverned :
      (b : Broker db.State) (step : CompiledWorkflowStep) (binding : CapabilityStepBinding)
      (o : Option String) (m : Meta) (k : String)
      → (run_mapped host db options b step binding o).0 ≡ executes m k
      → options.resolve_capability step ≡ some binding
      → derive_agent_id options step ≡ o
      → IsGoverned b step
  unfolding run_mapped
  mapped-IsGoverned b step binding none m k h bound identified = absurd (no_call h)
    where
      no_call : {o : GovernedStepOutcome} → comes_to o ≡ executes m k → ⊥
      no_call h = cc
  mapped-IsGoverned b step binding (some agent) m k h bound identified =
      elim (Bool-cases (agent == "")) [
        | inl blank ↦ absurd (no_call (rw blank at h))
        | inr named ↦
            bound-IsGoverned b step binding agent m k (rw named at h) bound identified named
      ]
    where
      no_call : {o : GovernedStepOutcome} → comes_to o ≡ executes m k → ⊥
      no_call h = cc

  with-IsGoverned :
      (b : Broker db.State) (step : CompiledWorkflowStep) (o : Option CapabilityStepBinding)
      (m : Meta) (k : String)
      → (run_with host db options b step o).0 ≡ executes m k
      → options.resolve_capability step ≡ o
      → IsGoverned b step
  unfolding run_with
  with-IsGoverned b step none m k h bound = absurd (no_call h)
    where
      no_call : {o : GovernedStepOutcome} → comes_to o ≡ executes m k → ⊥
      no_call h = cc
  with-IsGoverned b step (some binding) m k h bound =
      mapped-IsGoverned b step binding (derive_agent_id options step) m k h bound refl

  -- If the runner goes on to execute a step when it runs it, then the pack binds the step to a
  -- capability that is registered, the step has a specialist that is not the empty text, and the
  -- request passes the broker's checks on grants, environment and production for that specialist,
  -- at an effective risk below L2.
  pub run_step-IsGoverned :
      (b : Broker db.State) (step : CompiledWorkflowStep) (m : Meta) (k : String)
      → (run_step host db options b step).0 ≡ executes m k
      → IsGoverned b step
  unfolding run_step
  run_step-IsGoverned b step m k h =
      with-IsGoverned b step (options.resolve_capability step) m k h refl
