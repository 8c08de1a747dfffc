-- ===== src/Tests/Policy.antt =====
-- Grants, the admission of connectors and the policy engines, at one connector and two capabilities.
use bm_agents_world.Common.{true, false, ◌≡◌, ◌≢◌, ◌↔◌, ◌⊎◌, refl, none, some, [], ◌∷◌, or_default}
use bm_agents_world.Common.Dict.{get, set}
use bm_agents_world.Capability.{
  EnvironmentName, PolicyEffect, allow, approval, deny, RiskLevel, requires_human, ApprovalMode,
}
use bm_agents_world.Capability.Grants
use bm_agents_world.Capability.Grants.{CapabilityGrantSpec, UnknownMode, allows}
use bm_agents_world.Capability.Grants.Authority.{Authorised, allows_iff}
use bm_agents_world.Policy.{OpaReply, replied, local_evaluate, opa_evaluate, baseline_decision}
use bm_agents_world.Policy.Connectors.{Registry, Mapping, make_registry, admission, known}
use bm_agents_world.Policy.Connectors.Admission.{Admits}
use bm_agents_world.Policy.Connectors.Index.{Listed, admission_iff}
use bm_agents_world.Policy.Bounds.{
  Permitted, effective_risk, local_evaluate_iff, AtLeast, opa_evaluate-AtLeast, IsComplete,
  opa_evaluate_fail_closed, opa_evaluate_unapproved_risk,
}
use bm_agents_world.Tests.Samples.{context, write_issue, read_issue, jira}

abbrev grants : CapabilityGrantSpec
grants = record {
  scoped = some (("tester", "jira.read" ∷ []) ∷ []);
  unrestricted = some ("supervisor" ∷ []);
  unknown = none;
}

allows_iff_example :
    (allows (Grants.make_registry grants) "tester" "jira.read" ≡ true)
    ↔ Authorised grants "tester" "jira.read"
unfolding get
allows_iff_example = allows_iff grants "tester" "jira.read" (refl, _)

abbrev no_registry : Registry
no_registry = record { connectors = []; by_capability = [] }

abbrev connectors : Registry
connectors = or_default (make_registry (jira ∷ [])) no_registry

admission_iff_example :
    ((admission connectors write_issue "qa-agent-pack" EnvironmentName.qa).allowed ≡ true) ↔ (
      (m : Mapping) × Listed (jira ∷ []) "jira.write" m
      × Admits write_issue "qa-agent-pack" EnvironmentName.qa m)
unfolding make_registry get set
admission_iff_example =
    admission_iff (jira ∷ []) connectors write_issue "qa-agent-pack" EnvironmentName.qa refl

local_evaluate_iff_example :
    (((local_evaluate connectors write_issue context).effect ≡ allow) ↔ (
      Permitted write_issue context
        (admission connectors write_issue "qa-agent-pack" EnvironmentName.qa)
      × (requires_human (effective_risk write_issue context) ≡ false)))
    × (((local_evaluate connectors write_issue context).effect ≡ approval) ↔ (
        Permitted write_issue context
          (admission connectors write_issue "qa-agent-pack" EnvironmentName.qa)
        × (requires_human (effective_risk write_issue context) ≡ true)))
local_evaluate_iff_example = local_evaluate_iff connectors write_issue context

abbrev answer : PolicyEffect → RiskLevel → OpaReply
answer effect risk =
    replied
      (some (record {
        effect = some (known effect);
        risk_level = some (known risk);
        approval_mode = some (known ApprovalMode.none);
        reason = none;
      }))
      none

opa_evaluate-AtLeast_example :
    AtLeast
      (local_evaluate connectors write_issue context)
      (opa_evaluate connectors (answer allow RiskLevel.l0) write_issue context)
opa_evaluate-AtLeast_example =
    opa_evaluate-AtLeast connectors (answer allow RiskLevel.l0) write_issue context

allow_deny : allow ≢ deny
allow_deny h = cc

opa_evaluate_fail_closed_example : IsComplete (answer allow RiskLevel.l0)
unfolding opa_evaluate baseline_decision admission make_registry get set
opa_evaluate_fail_closed_example =
    opa_evaluate_fail_closed connectors (answer allow RiskLevel.l0) read_issue context is_allowed
  where
    is_allowed :
        (opa_evaluate connectors (answer allow RiskLevel.l0) read_issue context).effect ≢ deny
    is_allowed h = allow_deny h

opa_evaluate_unapproved_risk_example :
    ((opa_evaluate connectors (answer allow RiskLevel.l3) read_issue context).effect ≡ allow)
    × ((opa_evaluate connectors (answer allow RiskLevel.l3) read_issue context).risk_level
        ≡ RiskLevel.l3)
    × (((RiskLevel.l3 ≡ RiskLevel.l4)
          × ((opa_evaluate connectors (answer allow RiskLevel.l3) read_issue context).approval_mode
              ≡ ApprovalMode.privileged_process))
        ⊎ ((RiskLevel.l3 ≢ RiskLevel.l4)
            × ((opa_evaluate connectors
                  (answer allow RiskLevel.l3)
                  read_issue
                  context).approval_mode
                ≡ read_issue.approval_mode)))
unfolding local_evaluate baseline_decision admission make_registry get set
opa_evaluate_unapproved_risk_example =
    opa_evaluate_unapproved_risk connectors read_issue context RiskLevel.l3
      (known ApprovalMode.none) none none refl refl
