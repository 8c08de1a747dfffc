-- ===== src/Broker/Request.antt =====
-- `requestAction` of the broker.
use bm_agents_world.Common.{
  ℕ, suc, ◌+◌, String, Bool, true, not, ◌&&◌, Option, none, some, [], ◌∷◌, if◌then◌else◌, concat,
}
use bm_agents_world.Common.Dict.{get}
use bm_agents_world.Json.{Json, text}
use bm_agents_world.Capability.{
  RiskLevel, l1, l4, ApprovalMode, human, privileged_process, ExecutionContext, EnvironmentName,
  CapabilityDefinition, CapabilityAction, ActionStatus, ApprovalContract, ApprovalStatus, system,
  agent, action_requested, approval_requested, action_denied, Metadata, is_prod, is_read,
  includes_env, requires_human, risk_name, environment_name,
}
use bm_agents_world.Capability.Store.{CapabilityStore}
use bm_agents_world.Capability.Grants.{CapabilityGrantRegistry, allows}
use bm_agents_world.Broker.State.{Host, Broker, payload_hash, start_run, save_action, audit}
use bm_agents_world.Broker.Outcome.{Outcome, returns, throws, unknown_capability}

abbrev pub approval_ttl_ms : ℕ
approval_ttl_ms = 600000

-- `effectiveRisk`
unfoldable pub effective_risk : CapabilityDefinition → EnvironmentName → RiskLevel
effective_risk d e = if is_prod e && is_read d.action_class then l4 else d.risk_level

-- `!this.grants || this.grants.allows(…)`
abbrev pub is_granted : Option CapabilityGrantRegistry → String → String → Bool
is_granted none who capability = true
is_granted (some r) who capability = allows r who capability

-- An action as the method first builds it, with what its four places share.
unfoldable pub new_action :
    String
    → CapabilityDefinition
    → String
    → ExecutionContext
    → Json
    → String
    → ℕ
    → RiskLevel
    → ApprovalMode
    → ActionStatus
    → Option ApprovalContract
    → String
    → CapabilityAction
new_action id d capability c payload hash now risk mode status approval reason = record {
  id = id;
  capability_id = capability;
  context = c;
  payload = payload;
  payload_hash = hash;
  risk_level = risk;
  approval_mode = mode;
  status = status;
  created_at = now;
  updated_at = now;
  execution_started_at = none;
  execution_finished_at = none;
  execution_duration_ms = none;
  approval = approval;
  result = none;
  policy_reason = reason;
  policy_decision = none;
}

abbrev policy_reason : RiskLevel → String
policy_reason l1 = "L1 is permitted by the current standing test policy."
policy_reason _ = "L0 scoped read is permitted automatically."

-- The metadata `{ reason }`, and `{ reason, grant: "denied" }`.
abbrev reason_only : String → Metadata
reason_only reason = ("reason", some (text reason)) ∷ []

abbrev not_granted : String → Metadata
not_granted reason = ("reason", some (text reason)) ∷ ("grant", some (text "denied")) ∷ []

-- The three kinds of early return, and what passes them.
pub data Verdict : Type 0 where
  denied : RiskLevel → ApprovalMode → String → (String → Metadata) → Verdict
  proceeds : Verdict

unfoldable pub verdict :
    Option CapabilityGrantRegistry → CapabilityDefinition → String → ExecutionContext → Verdict
unfolding effective_risk
verdict grants d capability c =
    if not (is_granted grants c.agent_id capability)
    then denied (effective_risk d c.environment) d.approval_mode
        (concat ("Agent " ∷ c.agent_id ∷ " is not granted capability " ∷ capability ∷ "." ∷ []))
        not_granted
    else if not (includes_env d.allowed_environments c.environment)
    then denied (effective_risk d c.environment) d.approval_mode
        (concat ("Capability is not allowed in " ∷ environment_name c.environment ∷ "." ∷ []))
        reason_only
    else if is_prod c.environment && d.production_mutation
    then denied l4 privileged_process
        "Free-form production mutation is denied by the QA pack policy." reason_only
    else proceeds

-- The contract that a human is asked to approve.
unfoldable pub new_approval : String → String → String → RiskLevel → ℕ → ApprovalContract
new_approval id action hash risk now = record {
  id = id;
  action_id = action;
  payload_hash = hash;
  risk_level = risk;
  status = ApprovalStatus.pending;
  requested_at = now;
  expires_at = now + approval_ttl_ms;
  decided_at = none;
  decided_by = none;
  reason = none;
}

module _ (host : Host) (db : CapabilityStore) where
  open host use {now, uuid}

  -- One of the early returns: a rejected action is saved and recorded.
  unfoldable pub deny :
      Broker db.State → CapabilityAction → Metadata → Outcome CapabilityAction × Broker db.State
  deny b a metadata = (
    returns a,
    audit host db (save_action host db b a) action_denied a system "capability-broker"
        (some metadata),
  )

  -- What follows the early returns, for an effective risk that needs an approval, and for one that
  -- does not.
  unfoldable pub accept :
      Broker db.State
      → CapabilityDefinition
      → String
      → ExecutionContext
      → Json
      → String
      → ℕ
      → String
      → Outcome CapabilityAction × Broker db.State
  unfolding new_action new_approval
  accept b d capability c payload hash t id =
      let risk = effective_risk d c.environment in
      if requires_human risk
      then (let a =
            new_action id d capability c payload hash t risk human ActionStatus.pending_approval
              (some (new_approval (uuid b.draws) id hash risk t))
              (concat (risk_name risk ∷ " requires a payload-bound human approval." ∷ [])) in
          let b' = save_action host db (record b { draws = suc b.draws }) a in
          (
            returns a,
            audit host db (audit host db b' action_requested a agent c.agent_id none)
                approval_requested a system "capability-broker" none,
          ))
      else (let a =
            new_action id d capability c payload hash t risk d.approval_mode ActionStatus.ready none
              (policy_reason risk) in
          (
            returns a,
            audit host db (save_action host db b a) action_requested a agent c.agent_id none,
          ))

  unfoldable pub conclude :
      Verdict
      → Broker db.State
      → CapabilityDefinition
      → String
      → ExecutionContext
      → Json
      → String
      → ℕ
      → String
      → Outcome CapabilityAction × Broker db.State
  unfolding new_action deny accept
  conclude (denied risk mode reason metadata) b d capability c payload hash t id =
      deny b
        (new_action id d capability c payload hash t risk mode ActionStatus.rejected none reason)
        (metadata reason)
  conclude proceeds b d capability c payload hash t id = accept b d capability c payload hash t id

  -- The method, once the capability is found.
  unfoldable pub request_known :
      Broker db.State
      → CapabilityDefinition
      → String
      → ExecutionContext
      → Json
      → Outcome CapabilityAction × Broker db.State
  unfolding verdict conclude
  request_known b d capability c payload =
      let entry = start_run host db b c in
      conclude (verdict entry.grants d capability c)
        (record entry { reads = suc entry.reads; draws = suc entry.draws }) d capability c payload
        (payload_hash host db payload) (now entry.reads) (uuid entry.draws)

  unfoldable pub request_action :
      Broker db.State
      → String
      → ExecutionContext
      → Json
      → Outcome CapabilityAction × Broker db.State
  request_action b capability c payload = elim (get capability b.definitions) [
    | none ↦ (throws (unknown_capability capability), b)
    | some d ↦ request_known b d capability c payload
  ]
