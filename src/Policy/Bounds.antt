-- ===== src/Policy/Bounds.antt =====
-- How strict the decisions are: what the local rules let pass, and that an OPA answer can only
-- tighten them.
use bm_agents_world.Common.{
  ◌≤◌, String, true, false, ◌≡◌, ◌≢◌, refl, ◌↔◌, ◌⊎◌, inl, inr, ◌&&◌, ◌||◌, not, Option, none, some,
  arith, Bool-cases,
}
use bm_agents_world.Capability.{
  RiskLevel, l2, l3, l4, ApprovalMode, privileged_process, PolicyEffect, allow, approval, deny,
  CapabilityDefinition, ExecutionContext, is_prod, is_read, includes_env, requires_human,
}
use bm_agents_world.Policy.Connectors.{
  Registry, ConnectorAdmission, Wire, known, admission, risk_index,
}
use bm_agents_world.Policy.{
  PolicyDecision, effect_index, max_risk, stricter_effect, baseline_decision, is_deny,
  local_evaluate, OpaResult, OpaReply, failed, replied, bound_decision, bound_result, bound_reply,
  approval_for, fail_closed, opa_evaluate,
}

-- The conditions under which a request is not denied at once.
pub record Permitted (d : CapabilityDefinition) (c : ExecutionContext) (a : ConnectorAdmission)
    : Type 0 where
  pub admitted : a.allowed ≡ true
  pub environment : includes_env d.allowed_environments c.environment ≡ true
  pub no_production_change : (is_prod c.environment && d.production_mutation) ≡ false

-- The risk that a request has: a read in production counts as L4.
pub effective_risk : CapabilityDefinition → ExecutionContext → RiskLevel
effective_risk d c = elim (is_prod c.environment && is_read d.action_class) [
  | true ↦ l4
  | false ↦ d.risk_level
]

baseline-Permitted :
    (d : CapabilityDefinition) (c : ExecutionContext) (a : ConnectorAdmission)
    → (baseline_decision d c a).effect ≢ deny
    → Permitted d c a
unfolding baseline_decision
baseline-Permitted d c a h = record {
  admitted = ground arith;
  environment = ground arith;
  no_production_change = ground arith;
}

baseline_effect :
    (d : CapabilityDefinition) (c : ExecutionContext) (a : ConnectorAdmission)
    → Permitted d c a
    → ((baseline_decision d c a).risk_level ≡ effective_risk d c)
      × ((baseline_decision d c a).effect
          ≡ elim (requires_human (effective_risk d c)) [ true ↦ approval | false ↦ allow ])
unfolding baseline_decision effective_risk
baseline_effect d c a p = ground arith

-- For every registry and request, the local policy allows the request exactly if it is permitted
-- and its effective risk is L0 or L1, and asks for an approval exactly if it is permitted and that
-- risk is L2 or above; so it denies everything else.
pub local_evaluate_iff :
    (r : Registry) (d : CapabilityDefinition) (c : ExecutionContext)
    → (((local_evaluate r d c).effect ≡ allow) ↔ (
        Permitted d c (admission r d c.pack_id c.environment)
        × (requires_human (effective_risk d c) ≡ false)))
      × (((local_evaluate r d c).effect ≡ approval) ↔ (
          Permitted d c (admission r d c.pack_id c.environment)
          × (requires_human (effective_risk d c) ≡ true)))
unfolding local_evaluate
local_evaluate_iff r d c = ((to_allow, from_allow), (to_approval, from_approval))
  where
    a : ConnectorAdmission
    a = admission r d c.pack_id c.environment

    to_allow :
        (baseline_decision d c a).effect ≡ allow
        → Permitted d c a × (requires_human (effective_risk d c) ≡ false)
    to_allow h =
        let p : Permitted d c a = baseline-Permitted d c a (ground arith) in
        (p, ground (arith, baseline_effect d c a p))

    from_allow :
        Permitted d c a × (requires_human (effective_risk d c) ≡ false)
        → (baseline_decision d c a).effect ≡ allow
    from_allow (p, h) = ground (arith, baseline_effect d c a p)

    to_approval :
        (baseline_decision d c a).effect ≡ approval
        → Permitted d c a × (requires_human (effective_risk d c) ≡ true)
    to_approval h =
        let p : Permitted d c a = baseline-Permitted d c a (ground arith) in
        (p, ground (arith, baseline_effect d c a p))

    from_approval :
        Permitted d c a × (requires_human (effective_risk d c) ≡ true)
        → (baseline_decision d c a).effect ≡ approval
    from_approval (p, h) = ground (arith, baseline_effect d c a p)

max_risk-le :
    (left : RiskLevel) (right : Wire RiskLevel) → risk_index left ≤ risk_index (max_risk left right)
unfolding max_risk
max_risk-le left (known right) = ground arith
max_risk-le left _ = ground arith

stricter_effect-le :
    (left : PolicyEffect) (right : Wire PolicyEffect)
    → effect_index left ≤ effect_index (stricter_effect left right)
unfolding stricter_effect
stricter_effect-le left (known right) = ground arith
stricter_effect-le left _ = ground arith

-- At least as strict, in effect and in risk.
pub record AtLeast (b p : PolicyDecision) : Type 0 where
  pub effect : effect_index b.effect ≤ effect_index p.effect
  pub risk : risk_index b.risk_level ≤ risk_index p.risk_level

fail_closed-AtLeast :
    (b : PolicyDecision) (a : ConnectorAdmission) (message : String)
    → AtLeast b (fail_closed b a message)
unfolding fail_closed
fail_closed-AtLeast b a message = record {
  effect = ground arith;
  risk = max_risk-le b.risk_level (known l4);
}

bound_decision-AtLeast :
    (b : PolicyDecision) (a : ConnectorAdmission) (e : Wire PolicyEffect) (r : Wire RiskLevel)
    (m : Wire ApprovalMode) (reason decision : Option String)
    → AtLeast b (bound_decision b a e r m reason decision)
unfolding bound_decision
bound_decision-AtLeast b a e r m reason decision = record {
  effect = stricter_effect-le b.effect e;
  risk = max_risk-le b.risk_level r;
}

bound_result-AtLeast :
    (b : PolicyDecision) (a : ConnectorAdmission) (e : Option (Wire PolicyEffect))
    (r : Option (Wire RiskLevel)) (m : Option (Wire ApprovalMode)) (reason decision : Option String)
    → AtLeast b (bound_result b a e r m reason decision)
unfolding bound_result
bound_result-AtLeast b a (some e) (some r) (some m) reason decision =
    bound_decision-AtLeast b a e r m reason decision
bound_result-AtLeast b a _ _ _ reason decision = fail_closed-AtLeast b a _

bound_reply-AtLeast :
    (b : PolicyDecision) (a : ConnectorAdmission) (reply : OpaReply)
    → AtLeast b (bound_reply b a reply)
unfolding bound_reply
bound_reply-AtLeast b a (failed message) = fail_closed-AtLeast b a message
bound_reply-AtLeast b a (replied none decision) = fail_closed-AtLeast b a _
bound_reply-AtLeast b a (replied (some r) decision) =
    bound_result-AtLeast b a r.effect r.risk_level r.approval_mode r.reason decision

-- Whatever the OPA server answers, or fails to answer: the decision is at least as strict as the
-- local one for the same registry and request, in effect and in risk level.
pub opa_evaluate-AtLeast :
    (r : Registry) (reply : OpaReply) (d : CapabilityDefinition) (c : ExecutionContext)
    → AtLeast (local_evaluate r d c) (opa_evaluate r reply d c)
unfolding opa_evaluate local_evaluate
opa_evaluate-AtLeast r reply d c = elim (Bool-cases (not a.allowed || is_deny b.effect)) [
  | inl stop ↦ rw stop (record { effect = omega arith; risk = omega arith })
  | inr go ↦ rw go (bound_reply-AtLeast b a reply)
]
  where
    a : ConnectorAdmission
    a = admission r d c.pack_id c.environment

    b : PolicyDecision
    b = baseline_decision d c a

-- An answer that the engine can use: all three fields are there.
pub data IsComplete : OpaReply → Type 0 where
  complete :
      {r : OpaResult} {decision : Option String} (e : Wire PolicyEffect) (risk : Wire RiskLevel)
      (m : Wire ApprovalMode)
      → r.effect ≡ some e
      → r.risk_level ≡ some risk
      → r.approval_mode ≡ some m
      → IsComplete (replied (some r) decision)

bound_result_denied :
    (b : PolicyDecision) (a : ConnectorAdmission) (r : OpaResult) (decision : Option String)
    (e : Option (Wire PolicyEffect)) (risk : Option (Wire RiskLevel))
    (m : Option (Wire ApprovalMode))
    → r.effect ≡ e
    → r.risk_level ≡ risk
    → r.approval_mode ≡ m
    → ((bound_result b a e risk m r.reason decision).effect ≢ deny)
    → IsComplete (replied (some r) decision)
unfolding bound_result fail_closed
bound_result_denied b a r decision (some e) (some risk) (some m) p q s h = complete e risk m p q s
bound_result_denied b a r decision _ _ _ p q s h = absurd (h refl)

-- Without a complete answer of the OPA server every request is denied: if a decision is not a
-- denial, the answer had an effect, a risk level and an approval mode.
pub opa_evaluate_fail_closed :
    (r : Registry) (reply : OpaReply) (d : CapabilityDefinition) (c : ExecutionContext)
    → (opa_evaluate r reply d c).effect ≢ deny
    → IsComplete reply
unfolding opa_evaluate
opa_evaluate_fail_closed r reply d c h = elim (Bool-cases (not a.allowed || is_deny b.effect)) [
  | inl stop ↦ absurd (h (rw stop (denied stop)))
  | inr go ↦ answered reply (rw go at h)
]
  where
    a : ConnectorAdmission
    a = admission r d c.pack_id c.environment

    b : PolicyDecision
    b = baseline_decision d c a

    denied : (not a.allowed || is_deny b.effect) ≡ true → b.effect ≡ deny
    denied e = unfold baseline_decision in ground arith

    answered : (q : OpaReply) → (bound_reply b a q).effect ≢ deny → IsComplete q
    answered (failed message) k = absurd (k (unfold bound_reply fail_closed in refl))
    answered (replied none decision) k = absurd (k (unfold bound_reply fail_closed in refl))
    answered (replied (some q) decision) k =
        bound_result_denied b a q decision q.effect q.risk_level q.approval_mode refl refl refl
          (unfold bound_reply in k)

-- A flaw: for every request that the local policy allows, an answer with the effect `allow` and
-- the risk level L2, L3 or L4 leaves the effect at `allow`, and the decision has that risk level. At
-- L2 and L3 its approval mode is the one that the capability states for itself, whatever the answer
-- says; at L4 it is the privileged process.
pub opa_evaluate_unapproved_risk :
    (r : Registry) (d : CapabilityDefinition) (c : ExecutionContext) (risk : RiskLevel)
    (m : Wire ApprovalMode) (reason decision : Option String)
    → (local_evaluate r d c).effect ≡ allow
    → requires_human risk ≡ true
    → let p =
        opa_evaluate r
          (replied
            (some (record {
              effect = some (known allow);
              risk_level = some (known risk);
              approval_mode = some m;
              reason = reason;
            }))
            decision)
          d
          c in
      (p.effect ≡ allow)
      × (p.risk_level ≡ risk)
      × (((risk ≡ l4) × (p.approval_mode ≡ privileged_process))
          ⊎ ((risk ≢ l4) × (p.approval_mode ≡ d.approval_mode)))
unfolding opa_evaluate local_evaluate bound_reply bound_result bound_decision approval_for
    baseline_decision
opa_evaluate_unapproved_risk r d c l2 m reason decision h g =
    (ground arith, ground arith, inr (λ e. cc, ground arith))
opa_evaluate_unapproved_risk r d c l3 m reason decision h g =
    (ground arith, ground arith, inr (λ e. cc, ground arith))
opa_evaluate_unapproved_risk r d c l4 m reason decision h g =
    (ground arith, ground arith, inl (refl, ground arith))
opa_evaluate_unapproved_risk r d c _ m reason decision h g = absurd (ground arith)
