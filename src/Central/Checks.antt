-- ===== src/Central/Checks.antt =====
-- When an execution begins under the central policy, and what a refusal leaves behind.
use bm_agents_world.Common.{
  truth_apart, suc, String, true, false, ◌≡◌, refl, sym, subst, ◌∙◌, Option, none, some, Bool-cases,
  Option-cases, inl, inr, includes,
}
use bm_agents_world.Common.Dict.{get}
use bm_agents_world.Capability.{
  CapabilityAction, CapabilityDefinition, ExecutionContext, Metadata, RiskLevel, ApprovalMode,
}
use bm_agents_world.Capability.Store.{CapabilityStore}
use bm_agents_world.Policy.{PolicyDecision}
use bm_agents_world.Broker.State.{Host}
use bm_agents_world.Broker.Outcome.{Outcome, returns, throws, BrokerError}
use bm_agents_world.Broker.Execute.{Execution, may_execute, is_tampered, start_executing}
use bm_agents_world.Central.{AsyncBroker, audit_async, save_async}
use bm_agents_world.Central.Requests.{stored-audit, stored-save}
use bm_agents_world.Central.Execute.{
  risk_eq, mode_eq, is_deny, bar_async, start_async, recheck_async, begin_found_async,
}

risk_eq_refl : (x : RiskLevel) → risk_eq x x ≡ true
risk_eq_refl RiskLevel.l0 = refl
risk_eq_refl RiskLevel.l1 = refl
risk_eq_refl RiskLevel.l2 = refl
risk_eq_refl RiskLevel.l3 = refl
risk_eq_refl RiskLevel.l4 = refl

risk_eq_same : (x y : RiskLevel) → risk_eq x y ≡ true → x ≡ y
risk_eq_same RiskLevel.l0 RiskLevel.l0 h = refl
risk_eq_same RiskLevel.l1 RiskLevel.l1 h = refl
risk_eq_same RiskLevel.l2 RiskLevel.l2 h = refl
risk_eq_same RiskLevel.l3 RiskLevel.l3 h = refl
risk_eq_same RiskLevel.l4 RiskLevel.l4 h = refl
risk_eq_same _ _ h = absurd (truth_apart (sym h))

mode_eq_refl : (x : ApprovalMode) → mode_eq x x ≡ true
mode_eq_refl ApprovalMode.none = refl
mode_eq_refl ApprovalMode.standing_policy = refl
mode_eq_refl ApprovalMode.human = refl
mode_eq_refl ApprovalMode.privileged_process = refl

mode_eq_same : (x y : ApprovalMode) → mode_eq x y ≡ true → x ≡ y
mode_eq_same ApprovalMode.none ApprovalMode.none h = refl
mode_eq_same ApprovalMode.standing_policy ApprovalMode.standing_policy h = refl
mode_eq_same ApprovalMode.human ApprovalMode.human h = refl
mode_eq_same ApprovalMode.privileged_process ApprovalMode.privileged_process h = refl
mode_eq_same _ _ h = absurd (truth_apart (sym h))

-- What the policy says now of an action that was requested under it.
abbrev pub Permits :
    Option (CapabilityDefinition → ExecutionContext → PolicyDecision)
    → CapabilityDefinition
    → CapabilityAction
    → Type 0
Permits none d a = Unit
Permits (some evaluate) d a =
    (is_deny (evaluate d a.context).effect ≡ false)
    × ((evaluate d a.context).risk_level ≡ a.risk_level)
    × ((evaluate d a.context).approval_mode ≡ a.approval_mode)

module _ (host : Host) (db : CapabilityStore) where
  -- What the checks of an execution ask of an action, with its definition.
  pub record Allowed (b : AsyncBroker db.State) (a : CapabilityAction) (d : CapabilityDefinition)
      : Type 0 where
    pub may : may_execute a.status ≡ true
    pub intact : is_tampered a.approval a.payload_hash ≡ false
    pub known : get a.capability_id b.definitions ≡ some d
    pub permitted : Permits b.policy d a
    pub reachable : includes b.adapters d.adapter_id ≡ true

  -- The call of the adapter that an execution comes to.
  pub record Started (b : AsyncBroker db.State) (a : CapabilityAction) (d : CapabilityDefinition)
      (r : Outcome Execution × AsyncBroker db.State) : Type 0 where
    pub call : Execution
    pub returned : r.0 ≡ returns call
    pub executing : call.action ≡ start_executing host db a call.started
    pub definition : call.definition ≡ d
    pub adapter : call.adapter ≡ d.adapter_id
    pub stored : db.get_action a.id r.1.store ≡ some call.action
    pub same_definitions : r.1.definitions ≡ b.definitions
    pub same_policy : r.1.policy ≡ b.policy
    pub same_adapters : r.1.adapters ≡ b.adapters

  -- A refusal, which leaves every stored action as it was.
  pub record Refused (b : AsyncBroker db.State) (r : Outcome Execution × AsyncBroker db.State)
      : Type 0 where
    pub error : BrokerError
    pub thrown : r.0 ≡ throws error
    pub untouched : (k : String) → db.get_action k r.1.store ≡ db.get_action k b.store

  start_async-Started :
      (b : AsyncBroker db.State) (a : CapabilityAction) (d : CapabilityDefinition)
      → includes b.adapters d.adapter_id ≡ true
      → Started b a d (start_async host db b a d)
  unfolding start_async
  start_async-Started b a d h =
      let started = start_executing host db a (host.now b.reads) in
      let next : AsyncBroker db.State = record b { reads = suc b.reads } in
      rw h (record {
        call = _;
        returned = refl;
        executing = refl;
        definition = refl;
        adapter = refl;
        stored =
            stored-audit host db (save_async host db next started) _ started _ _ _ a.id
            ∙ stored-save host db next started;
        same_definitions = unfold audit_async save_async in refl;
        same_policy = unfold audit_async save_async in refl;
        same_adapters = unfold audit_async save_async in refl;
      })

  bar_async-Refused :
      (b : AsyncBroker db.State) (a : CapabilityAction) (m : Metadata) (e : BrokerError)
      → Refused b (bar_async host db b a m e)
  unfolding bar_async
  bar_async-Refused b a m e = record {
    error = e;
    thrown = refl;
    untouched = λ k. stored-audit host db b _ a _ _ _ k;
  }

  throws-Refused : (b : AsyncBroker db.State) (e : BrokerError) → Refused b (throws e, b)
  throws-Refused b e = record { error = e; thrown = refl; untouched = λ k. refl }

  -- Either the checks hold and the adapter is called, or the call is refused.
  pub data Checked (b : AsyncBroker db.State) (a : CapabilityAction)
      (r : Outcome Execution × AsyncBroker db.State) : Type 0 where
    starts : (d : CapabilityDefinition) → Allowed b a d → Started b a d r → Checked b a r
    barred : ((d : CapabilityDefinition) → ¬ Allowed b a d) → Refused b r → Checked b a r

  Allowed-known :
      {b : AsyncBroker db.State} {a : CapabilityAction} {d e : CapabilityDefinition}
      → get a.capability_id b.definitions ≡ some d
      → Allowed b a e
      → Allowed b a d
  Allowed-known {b} {a} {d} {e} known x = subst (Allowed b a) same x
    where
      held : get a.capability_id b.definitions ≡ some e
      held = x.known

      same : e ≡ d
      same = cc

  start_async-Checked :
      (b : AsyncBroker db.State) (a : CapabilityAction) (d : CapabilityDefinition)
      → may_execute a.status ≡ true
      → is_tampered a.approval a.payload_hash ≡ false
      → get a.capability_id b.definitions ≡ some d
      → Permits b.policy d a
      → Checked b a (start_async host db b a d)
  unfolding start_async
  start_async-Checked b a d may intact known permitted =
      elim (Bool-cases (includes b.adapters d.adapter_id)) [
        | inl h ↦
            starts d
              (record {
                may = may;
                intact = intact;
                known = known;
                permitted = permitted;
                reachable = h;
              })
              (start_async-Started b a d h)
        | inr h ↦
            barred (λ e x. truth_apart (sym (Allowed-known known x).reachable ∙ h))
              (rw h (throws-Refused b _))
      ]

  recheck_async-Checked :
      (o : Option (CapabilityDefinition → ExecutionContext → PolicyDecision))
      (b : AsyncBroker db.State) (a : CapabilityAction) (d : CapabilityDefinition)
      → b.policy ≡ o
      → may_execute a.status ≡ true
      → is_tampered a.approval a.payload_hash ≡ false
      → get a.capability_id b.definitions ≡ some d
      → Checked b a (recheck_async host db o b a d)
  unfolding recheck_async
  recheck_async-Checked none b a d here may intact known =
      start_async-Checked b a d may intact known (subst (λ o. Permits o d a) (sym here) tt)
  recheck_async-Checked (some evaluate) b a d here may intact known =
      elim (Bool-cases (is_deny p.effect)) [
        | inr allowed ↦ elim (Bool-cases (risk_eq p.risk_level a.risk_level)) [
          | inr other ↦
              rw (allowed, other)
                (barred (λ e x. truth_apart (sym (risk_same (now_permits x).1) ∙ other))
                  (bar_async-Refused b a _ _))
          | inl risk ↦ elim (Bool-cases (mode_eq p.approval_mode a.approval_mode)) [
            | inr other ↦
                rw (allowed, risk, other)
                  (barred (λ e x. truth_apart (sym (mode_same (now_permits x).2) ∙ other))
                    (bar_async-Refused b a _ _))
            | inl mode ↦
                rw (allowed, risk, mode)
                  (start_async-Checked b a d may intact known (
                    subst (λ o. Permits o d a) (sym here)
                      (allowed, risk_eq_same _ _ risk, mode_eq_same _ _ mode)))
          ]
        ]
        | inl denied ↦ rw denied (
            barred (λ e x. truth_apart (sym denied ∙ (now_permits x).0))
              (bar_async-Refused b a _ _))
      ]
    where
      p : PolicyDecision
      p = evaluate d a.context

      now_permits : {e : CapabilityDefinition} → Allowed b a e → Permits (some evaluate) d a
      now_permits x = subst (λ o. Permits o d a) here (Allowed-known known x).permitted

      risk_same : p.risk_level ≡ a.risk_level → risk_eq p.risk_level a.risk_level ≡ true
      risk_same same = rw same (risk_eq_refl _)

      mode_same : p.approval_mode ≡ a.approval_mode → mode_eq p.approval_mode a.approval_mode ≡ true
      mode_same same = rw same (mode_eq_refl _)

  pub begin_found_async-Checked :
      (b : AsyncBroker db.State) (a : CapabilityAction)
      → Checked b a (begin_found_async host db b a)
  unfolding begin_found_async
  begin_found_async-Checked b a = elim (Bool-cases (may_execute a.status)) [
    | inr h ↦ rw h (barred (λ d x. truth_apart (sym x.may ∙ h)) (throws-Refused b _))
    | inl may ↦ elim (Bool-cases (is_tampered a.approval a.payload_hash)) [
      | inl h ↦ rw (may, h) (barred (λ d x. truth_apart (sym h ∙ x.intact)) (throws-Refused b _))
      | inr intact ↦ elim (Option-cases (get a.capability_id b.definitions)) [
        | inl h ↦
            rw (may, intact, h) (barred (λ d x. none_some (sym h ∙ x.known)) (throws-Refused b _))
        | inr (d, known) ↦
            rw (may, intact, known) (recheck_async-Checked b.policy b a d refl may intact known)
      ]
    ]
  ]
    where
      none_some : {d : CapabilityDefinition} → none ≡ some d → ⊥
      none_some h = cc
