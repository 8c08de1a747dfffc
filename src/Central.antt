-- ===== src/Central.antt =====
-- The requests of `AsyncCapabilityBroker` in
-- apps/agent-window/src/server/platform/async-capability-broker.ts: the broker on a shared store,
-- with a central policy. `adapters` holds the ids under which adapters are registered. The operations of the store are those of the interface in
-- Capability/Store, which the source awaits.
pub mod Requests
pub mod Decide
pub mod Execute
pub mod Checks
pub mod Overlap
use bm_agents_world.Common.{
  ℕ, suc, String, Bool, true, false, not, ◌&&◌, Option, none, some, List, [], ◌∷◌, concat,
  if◌then◌else◌,
}
use bm_agents_world.Common.Dict.{Dict, get}
use bm_agents_world.Json.{Json, text}
use bm_agents_world.Capability.{
  ExecutionContext, CapabilityDefinition, CapabilityAction, AuditEvent, ActorType, AuditKind,
  action_denied, action_requested, approval_requested, Metadata, ApprovalContract, ActionStatus,
  ApprovalMode, RiskLevel, l4, PolicyEffect, PolicySource, AppliedPolicyDecision, is_prod, is_read,
  includes_env, requires_human, risk_name, environment_name,
}
use bm_agents_world.Capability.Store.{CapabilityStore}
use bm_agents_world.Capability.Grants.{CapabilityGrantRegistry}
use bm_agents_world.Policy.{PolicyDecision}
use bm_agents_world.Broker.State.{Host, payload_hash}
use bm_agents_world.Broker.Outcome.{Outcome, returns, throws, unknown_capability}
use bm_agents_world.Broker.Request.{is_granted, new_action, new_approval}

-- `policy` is the evaluator, with the answer of its server as it is at the call.
pub record AsyncBroker (S : Type 0) : Type 0 where
  pub definitions : Dict CapabilityDefinition
  pub adapters : List String
  pub store : S
  pub policy : Option (CapabilityDefinition → ExecutionContext → PolicyDecision)
  pub grants : Option CapabilityGrantRegistry
  pub reads : ℕ
  pub draws : ℕ

abbrev is_l4 : RiskLevel → Bool
is_l4 l4 = true
is_l4 _ = false

abbrev legacy : PolicyEffect → RiskLevel → ApprovalMode → String → PolicyDecision
legacy effect risk mode reason = record {
  effect = effect;
  risk_level = risk;
  approval_mode = mode;
  reason = reason;
  source = PolicySource.local;
  decision_id = none;
  connector_id = none;
  tool_id = none;
}

-- The end of `legacyDecision`, at the effective risk.
abbrev legacy_at : CapabilityDefinition → RiskLevel → PolicyDecision
legacy_at d risk =
    legacy (if requires_human risk then PolicyEffect.approval else PolicyEffect.allow) risk
      (if is_l4 risk
        then ApprovalMode.privileged_process
        else if requires_human risk
        then ApprovalMode.human
        else d.approval_mode)
      (if requires_human risk
        then concat (risk_name risk ∷ " requires governed approval." ∷ [])
        else concat (risk_name risk ∷ " is permitted by standing policy." ∷ []))

-- `legacyDecision`
unfoldable pub legacy_decision : CapabilityDefinition → ExecutionContext → PolicyDecision
unfolding concat
legacy_decision d c =
    if not (includes_env d.allowed_environments c.environment)
    then legacy PolicyEffect.deny d.risk_level ApprovalMode.none
        (concat ("Capability is not allowed in " ∷ environment_name c.environment ∷ "." ∷ []))
    else if is_prod c.environment && d.production_mutation
    then legacy PolicyEffect.deny l4 ApprovalMode.privileged_process
        "Free-form production mutation is denied by pack policy."
    else legacy_at d (if is_prod c.environment && is_read d.action_class then l4 else d.risk_level)

abbrev pub decision_of :
    Option (CapabilityDefinition → ExecutionContext → PolicyDecision)
    → CapabilityDefinition
    → ExecutionContext
    → PolicyDecision
decision_of none d c = legacy_decision d c
decision_of (some evaluate) d c = evaluate d c

abbrev source_of : {A : Type 0} → Option A → PolicySource → PolicySource
source_of none source = PolicySource.legacy
source_of (some evaluate) source = source

abbrev pub applied : PolicySource → PolicyDecision → AppliedPolicyDecision
applied source p = record {
  effect = p.effect;
  source = source;
  decision_id = p.decision_id;
  connector_id = p.connector_id;
  tool_id = p.tool_id;
}

abbrev source_name : PolicySource → String
source_name PolicySource.local = "local"
source_name PolicySource.opa = "opa"
source_name PolicySource.legacy = "legacy"

abbrev approval_mode_name : ApprovalMode → String
approval_mode_name ApprovalMode.none = "none"
approval_mode_name ApprovalMode.standing_policy = "standing-policy"
approval_mode_name ApprovalMode.human = "human"
approval_mode_name ApprovalMode.privileged_process = "privileged-process"

abbrev optional : Option String → Option Json
optional none = none
optional (some s) = some (text s)

-- `policyMetadata`
unfoldable pub policy_metadata : PolicyDecision → Metadata
policy_metadata p =
    ("policySource", some (text (source_name p.source)))
    ∷ ("policyDecisionId", optional p.decision_id)
    ∷ ("connectorId", optional p.connector_id)
    ∷ ("toolId", optional p.tool_id)
    ∷ ("riskLevel", some (text (risk_name p.risk_level)))
    ∷ ("approvalMode", some (text (approval_mode_name p.approval_mode)))
    ∷ ("reason", some (text p.reason))
    ∷ []

module _ (host : Host) (db : CapabilityStore) where
  open host use {now, uuid}

  unfoldable pub audit_async :
      AsyncBroker db.State
      → AuditKind
      → CapabilityAction
      → ActorType
      → String
      → Option Metadata
      → AsyncBroker db.State
  audit_async b kind a actor_type actor_id metadata = record b {
    store = db.append_audit event a.context (now (suc b.reads)) b.store;
    reads = suc (suc b.reads);
    draws = suc b.draws;
  }
    where
      event : AuditEvent
      event = record {
        id = uuid b.draws;
        timestamp = now b.reads;
        run_id = a.context.run_id;
        actor_type = actor_type;
        actor_id = actor_id;
        event = kind;
        action_id = some a.id;
        capability_id = some a.capability_id;
        payload_hash = some a.payload_hash;
        metadata = metadata;
      }

  unfoldable pub save_async : AsyncBroker db.State → CapabilityAction → AsyncBroker db.State
  save_async b a = record b { store = db.save_action a (now b.reads) b.store; reads = suc b.reads }

  -- A refusal, by the grants or by the policy.
  unfoldable pub refuse_async :
      AsyncBroker db.State
      → CapabilityAction
      → Metadata
      → Outcome CapabilityAction × AsyncBroker db.State
  unfolding audit_async save_async
  refuse_async b a metadata = (
    returns a,
    audit_async (save_async b a) action_denied a ActorType.system "capability-broker"
        (some metadata),
  )

  abbrev not_granted_reason : ExecutionContext → String → String
  not_granted_reason c k =
      concat ("Agent " ∷ c.agent_id ∷ " is not granted capability " ∷ k ∷ "." ∷ [])

  unfoldable pub accept_async :
      AsyncBroker db.State
      → CapabilityAction
      → Metadata
      → Outcome CapabilityAction × AsyncBroker db.State
  unfolding audit_async save_async
  accept_async b a metadata = (
    returns a,
    audit_async (save_async b a) action_requested a ActorType.agent a.context.agent_id
        (some metadata),
  )

  unfoldable pub await_async :
      AsyncBroker db.State
      → CapabilityAction
      → Metadata
      → Outcome CapabilityAction × AsyncBroker db.State
  unfolding audit_async save_async
  await_async b a metadata = (
    returns a,
    audit_async
        (audit_async (save_async b a) action_requested a ActorType.agent a.context.agent_id
          (some metadata))
        approval_requested a ActorType.system "capability-broker" (some metadata),
  )

  -- The action that the decision of the policy leads to.
  abbrev pub decided_action :
      ActionStatus
      → Option ApprovalContract
      → CapabilityDefinition
      → String
      → ExecutionContext
      → Json
      → String
      → ℕ
      → String
      → PolicyDecision
      → AppliedPolicyDecision
      → CapabilityAction
  decided_action status approval d k c payload hash t id p taken = record {
    id = id;
    capability_id = k;
    context = c;
    payload = payload;
    payload_hash = hash;
    risk_level = p.risk_level;
    approval_mode = p.approval_mode;
    status = status;
    created_at = t;
    updated_at = t;
    execution_started_at = none;
    execution_finished_at = none;
    execution_duration_ms = none;
    approval = approval;
    result = none;
    policy_reason = p.reason;
    policy_decision = some taken;
  }

  -- What follows the decision of the policy, by its effect.
  unfoldable pub conclude_async :
      PolicyEffect
      → AsyncBroker db.State
      → CapabilityDefinition
      → String
      → ExecutionContext
      → Json
      → String
      → ℕ
      → String
      → PolicyDecision
      → AppliedPolicyDecision
      → Outcome CapabilityAction × AsyncBroker db.State
  unfolding refuse_async accept_async await_async policy_metadata new_approval
  conclude_async PolicyEffect.deny b d k c payload hash t id p taken =
      refuse_async b (decided_action ActionStatus.rejected none d k c payload hash t id p taken)
        (policy_metadata p)
  conclude_async PolicyEffect.approval b d k c payload hash t id p taken =
      await_async (record b { draws = suc b.draws })
        (decided_action ActionStatus.pending_approval
          (some (new_approval (uuid b.draws) id hash p.risk_level t)) d k c payload hash t id p
          taken)
        (policy_metadata p)
  conclude_async PolicyEffect.allow b d k c payload hash t id p taken =
      accept_async b (decided_action ActionStatus.ready none d k c payload hash t id p taken)
        (policy_metadata p)

  -- The method, for a capability that is registered, once the run is stored.
  unfoldable pub request_started :
      AsyncBroker db.State
      → CapabilityDefinition
      → String
      → ExecutionContext
      → Json
      → Outcome CapabilityAction × AsyncBroker db.State
  unfolding conclude_async legacy_decision
  request_started b d k c payload =
      let t = now b.reads in
      let id = uuid b.draws in
      let hash = payload_hash host db payload in
      let next : AsyncBroker db.State = record b { reads = suc b.reads; draws = suc b.draws } in
      let p = decision_of b.policy d c in
      if not (is_granted b.grants c.agent_id k)
      then refuse_async next
          (new_action id d k c payload hash t d.risk_level ApprovalMode.none ActionStatus.rejected
            none (not_granted_reason c k))
          (("reason", some (text (not_granted_reason c k))) ∷ ("grant", some (text "denied")) ∷ [])
      else conclude_async p.effect next d k c payload hash t id p
          (applied (source_of b.policy p.source) p)

  -- `requestAction`
  unfoldable pub request_async :
      AsyncBroker db.State
      → String
      → ExecutionContext
      → Json
      → Outcome CapabilityAction × AsyncBroker db.State
  unfolding request_started
  request_async b k c payload = elim (get k b.definitions) [
    | none ↦ (throws (unknown_capability k), b)
    | some d ↦
        request_started
          (record b { store = (db.upsert_run c (now b.reads) b.store).1; reads = suc b.reads }) d k
          c payload
  ]
