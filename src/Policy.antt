-- ===== src/Policy.antt =====
-- apps/agent-window/src/server/platform/policy-engine.ts: the decision that the centralized
-- policy takes on a capability request, locally or bounded against an answer of an OPA server.
-- The server is not part of the repository: its answer is an argument.
pub mod Connectors
pub mod Bounds
pub mod Listing
use bm_agents_world.Common.{
  ℕ, String, Bool, true, false, not, ◌&&◌, ◌||◌, Option, some, List, [], ◌∷◌, if◌then◌else◌, ltb,
  or_default, concat,
}
use mathlib.Core.Option
use bm_agents_world.Capability.{
  RiskLevel, l0, l1, l2, l3, l4, ApprovalMode, privileged_process, human, PolicyEffect, allow,
  approval, deny, PolicySource, local, opa, CapabilityDefinition, ExecutionContext, is_prod,
  is_read, includes_env, requires_human, risk_name, environment_name,
}
use Connectors.{Registry, ConnectorAdmission, Wire, known, other, admission, risk_index}

pub record PolicyDecision : Type 0 where
  pub effect : PolicyEffect
  pub risk_level : RiskLevel
  pub approval_mode : ApprovalMode
  pub reason : String
  pub source : PolicySource
  pub decision_id : Option String
  pub connector_id : Option String
  pub tool_id : Option String

-- `EFFECT_ORDER.indexOf`
abbrev pub effect_index : PolicyEffect → ℕ
effect_index allow = 0
effect_index approval = 1
effect_index deny = 2

-- `maxRisk` and `stricterEffect`, where the left side is one of the program's own values. A text
-- that is not in the order has index -1, so the left side stays.
unfoldable pub max_risk : RiskLevel → Wire RiskLevel → RiskLevel
max_risk left (other s) = left
max_risk left (known right) = if ltb (risk_index left) (risk_index right) then right else left

unfoldable pub stricter_effect : PolicyEffect → Wire PolicyEffect → PolicyEffect
stricter_effect left (other s) = left
stricter_effect left (known right) =
    if ltb (effect_index left) (effect_index right) then right else left

abbrev is_l4 : RiskLevel → Bool
is_l4 l4 = true
is_l4 _ = false

abbrev pub is_deny : PolicyEffect → Bool
is_deny deny = true
is_deny _ = false

abbrev is_privileged : ApprovalMode → Bool
is_privileged privileged_process = true
is_privileged _ = false

abbrev asks_privileged : Wire ApprovalMode → Bool
asks_privileged (known m) = is_privileged m
asks_privileged (other s) = false

approval_for_effect : PolicyEffect → ApprovalMode → Wire ApprovalMode → ApprovalMode
approval_for_effect approval baseline requested =
    if is_privileged baseline || asks_privileged requested then privileged_process else human
approval_for_effect deny baseline requested =
    if asks_privileged requested then privileged_process else baseline
approval_for_effect allow baseline requested = baseline

unfoldable pub approval_for :
    PolicyEffect → RiskLevel → ApprovalMode → Wire ApprovalMode → ApprovalMode
unfolding approval_for_effect
approval_for effect risk baseline requested =
    if is_l4 risk then privileged_process else approval_for_effect effect baseline requested

-- `baselineDecision`
unfoldable pub baseline_decision :
    CapabilityDefinition → ExecutionContext → ConnectorAdmission → PolicyDecision
unfolding max_risk
baseline_decision d c a =
    if not a.allowed
    then refuse d.risk_level ApprovalMode.none a.reason
    else if not (includes_env d.allowed_environments c.environment)
    then refuse d.risk_level ApprovalMode.none
        (concat ("Capability is not allowed in " ∷ environment_name c.environment ∷ "." ∷ []))
    else if is_prod c.environment && d.production_mutation
    then refuse l4 privileged_process "Free-form production mutation is denied."
    else grant risk
  where
    refuse : RiskLevel → ApprovalMode → String → PolicyDecision
    refuse risk mode reason = record {
      effect = deny;
      risk_level = risk;
      approval_mode = mode;
      reason = reason;
      source = local;
      decision_id = Option.none;
      connector_id = Option.map (λ x. x.id) a.connector;
      tool_id = Option.map (λ x. x.id) a.tool;
    }

    risk : RiskLevel
    risk =
        if is_prod c.environment && is_read d.action_class
        then max_risk d.risk_level (known l4)
        else d.risk_level

    grant : RiskLevel → PolicyDecision
    grant r = record {
      effect = if requires_human r then approval else allow;
      risk_level = r;
      approval_mode =
          if is_l4 r
          then privileged_process
          else if requires_human r
          then human
          else d.approval_mode;
      reason =
          if requires_human r
          then concat (risk_name r ∷ " requires governed approval." ∷ [])
          else concat (risk_name r ∷ " is permitted by standing policy." ∷ []);
      source = local;
      decision_id = Option.none;
      connector_id = Option.map (λ x. x.id) a.connector;
      tool_id = Option.map (λ x. x.id) a.tool;
    }

-- `LocalPolicyEngine.evaluate`
unfoldable pub local_evaluate : Registry → CapabilityDefinition → ExecutionContext → PolicyDecision
local_evaluate connectors d c =
    baseline_decision d c (admission connectors d c.pack_id c.environment)

-- The `result` of an answer; an empty text counts as absent, as it is falsy.
pub record OpaResult : Type 0 where
  pub effect : Option (Wire PolicyEffect)
  pub risk_level : Option (Wire RiskLevel)
  pub approval_mode : Option (Wire ApprovalMode)
  pub reason : Option String

-- What comes of the request to the server: `failed` is an exception of `fetch` or of parsing,
-- the timeout included, or a status that is not ok, with its message.
pub data OpaReply : Type 0 where
  failed : String → OpaReply
  replied : Option OpaResult → Option String → OpaReply

abbrev effect_is : PolicyEffect → Wire PolicyEffect → Bool
effect_is allow (known allow) = true
effect_is approval (known approval) = true
effect_is deny (known deny) = true
effect_is _ _ = false

abbrev risk_is : RiskLevel → Wire RiskLevel → Bool
risk_is l0 (known l0) = true
risk_is l1 (known l1) = true
risk_is l2 (known l2) = true
risk_is l3 (known l3) = true
risk_is l4 (known l4) = true
risk_is _ _ = false

abbrev mode_is : ApprovalMode → Wire ApprovalMode → Bool
mode_is ApprovalMode.none (known ApprovalMode.none) = true
mode_is ApprovalMode.standing_policy (known ApprovalMode.standing_policy) = true
mode_is human (known human) = true
mode_is privileged_process (known privileged_process) = true
mode_is _ _ = false

-- The catch block of `OpaPolicyEngine.evaluate`.
fail_closed : PolicyDecision → ConnectorAdmission → String → PolicyDecision
unfolding max_risk
fail_closed baseline a message = record {
  effect = deny;
  risk_level = max_risk baseline.risk_level (known l4);
  approval_mode = privileged_process;
  reason = concat ("OPA unavailable; fail-closed policy denied the action: " ∷ message ∷ []);
  source = opa;
  decision_id = Option.none;
  connector_id = Option.map (λ x. x.id) a.connector;
  tool_id = Option.map (λ x. x.id) a.tool;
}

-- The rest of its try block, once the answer has all three fields.
unfoldable pub bound_decision :
    PolicyDecision
    → ConnectorAdmission
    → Wire PolicyEffect
    → Wire RiskLevel
    → Wire ApprovalMode
    → Option String
    → Option String
    → PolicyDecision
unfolding max_risk stricter_effect approval_for
bound_decision baseline a effect risk mode reason decision =
    let e = stricter_effect baseline.effect effect in
    let r = max_risk baseline.risk_level risk in
    let m = approval_for e r baseline.approval_mode mode in
    let bounded = not (effect_is e effect) || not (risk_is r risk) || not (mode_is m mode) in
    record {
      effect = e;
      risk_level = r;
      approval_mode = m;
      reason =
          if bounded
          then concat (
              "OPA decision was bounded by the capability/connector minimum. OPA reason: "
              ∷ or_default reason "not provided"
              ∷ [])
          else or_default reason "OPA policy decision";
      source = opa;
      decision_id = decision;
      connector_id = Option.map (λ x. x.id) a.connector;
      tool_id = Option.map (λ x. x.id) a.tool;
    }

bound_result :
    PolicyDecision
    → ConnectorAdmission
    → Option (Wire PolicyEffect)
    → Option (Wire RiskLevel)
    → Option (Wire ApprovalMode)
    → Option String
    → Option String
    → PolicyDecision
unfolding bound_decision fail_closed
bound_result baseline a (some e) (some r) (some m) reason decision =
    bound_decision baseline a e r m reason decision
bound_result baseline a _ _ _ reason decision =
    fail_closed baseline a "OPA decision is undefined or incomplete"

bound_reply : PolicyDecision → ConnectorAdmission → OpaReply → PolicyDecision
unfolding bound_result
bound_reply baseline a (failed message) = fail_closed baseline a message
bound_reply baseline a (replied Option.none decision) =
    fail_closed baseline a "OPA decision is undefined or incomplete"
bound_reply baseline a (replied (some r) decision) =
    bound_result baseline a r.effect r.risk_level r.approval_mode r.reason decision

-- `OpaPolicyEngine.evaluate`
unfoldable pub opa_evaluate :
    Registry → OpaReply → CapabilityDefinition → ExecutionContext → PolicyDecision
unfolding bound_reply
opa_evaluate connectors reply d c =
    let a = admission connectors d c.pack_id c.environment in
    let baseline = baseline_decision d c a in
    if not a.allowed || is_deny baseline.effect then baseline else bound_reply baseline a reply
