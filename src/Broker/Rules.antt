-- ===== src/Broker/Rules.antt =====
-- How a request and a decision come out, on each of their branches.
use bm_agents_world.Common.{
  ℕ, ◌+◌, String, true, false, ◌≡◌, refl, sym, ◌∙◌, subst, Option, none, some, arith, Bool-cases,
  inl, inr, ◌&&◌, eq_iff,
}
use bm_agents_world.Common.Dict.{get}
use bm_agents_world.Json.{Json}
use bm_agents_world.Capability.{
  CapabilityAction, CapabilityDefinition, ExecutionContext, ActionStatus, ready, pending_approval,
  ApprovalContract, ApprovalStatus, ApprovalMode, RiskLevel, requires_human, is_prod, includes_env,
  Metadata, action_denied, action_requested, approval_requested,
}
use bm_agents_world.Capability.Store.{CapabilityStore}
use bm_agents_world.Capability.Grants.{CapabilityGrantRegistry}
use bm_agents_world.Broker.State.{Host, Broker, peek, payload_hash, start_run, save_action}
use bm_agents_world.Broker.Outcome.{Outcome, returns}
use bm_agents_world.Broker.Request.{
  approval_ttl_ms, effective_risk, is_granted, Verdict, denied, proceeds, verdict, accept, conclude,
  request_known, request_action,
}
use bm_agents_world.Broker.Peek.{peek-save, peek-audit}

-- The checks that a request has to pass.
pub record Passes (grants : Option CapabilityGrantRegistry) (d : CapabilityDefinition)
    (capability : String) (c : ExecutionContext) : Type 0 where
  pub granted : is_granted grants c.agent_id capability ≡ true
  pub environment : includes_env d.allowed_environments c.environment ≡ true
  pub no_production_change : (is_prod c.environment && d.production_mutation) ≡ false

false_is_not_true : false ≡ true → ⊥
false_is_not_true h = cc

-- What a verdict says of the checks.
data Judged (grants : Option CapabilityGrantRegistry) (d : CapabilityDefinition) (k : String)
    (c : ExecutionContext) : Verdict → Type 0 where
  lets : Passes grants d k c → Judged grants d k c proceeds
  bars :
      {risk : RiskLevel} {mode : ApprovalMode} {reason : String} {m : String → Metadata}
      → ¬ Passes grants d k c
      → Judged grants d k c (denied risk mode reason m)

verdict-Judged :
    (grants : Option CapabilityGrantRegistry) (d : CapabilityDefinition) (k : String)
    (c : ExecutionContext)
    → Judged grants d k c (verdict grants d k c)
unfolding verdict
verdict-Judged grants d k c = elim (Bool-cases (is_granted grants c.agent_id k)) [
  | inr unknown ↦ rw unknown (bars (λ p. false_is_not_true (sym unknown ∙ p.granted)))
  | inl granted ↦ elim (Bool-cases (includes_env d.allowed_environments c.environment)) [
    | inr outside ↦
        rw (granted, outside) (bars (λ p. false_is_not_true (sym outside ∙ p.environment)))
    | inl inside ↦ elim (Bool-cases (is_prod c.environment && d.production_mutation)) [
      | inl change ↦
          rw (granted, inside, change)
            (bars (λ p. false_is_not_true (sym p.no_production_change ∙ change)))
      | inr calm ↦
          rw (granted, inside, calm)
            (lets (record { granted = granted; environment = inside; no_production_change = calm }))
    ]
  ]
]

module _ (host : Host) (db : CapabilityStore) where
  -- The three ways in which the request of a registered capability comes out.
  pub data Answer (grants : Option CapabilityGrantRegistry) (d : CapabilityDefinition) (k : String)
      (c : ExecutionContext) (payload : Json) (a : CapabilityAction) : Type 0 where
    at_once :
        Passes grants d k c
        → requires_human (effective_risk d c.environment) ≡ false
        → a.status ≡ ready
        → a.approval ≡ none
        → Answer grants d k c payload a
    after_approval :
        Passes grants d k c
        → requires_human (effective_risk d c.environment) ≡ true
        → a.status ≡ pending_approval
        → (p : ApprovalContract) → a.approval ≡ some p
        → p.status ≡ ApprovalStatus.pending
        → p.payload_hash ≡ payload_hash host db payload
        → p.expires_at ≡ a.created_at + approval_ttl_ms
        → Answer grants d k c payload a
    never :
        ¬ Passes grants d k c
        → a.status ≡ ActionStatus.rejected
        → a.approval ≡ none
        → Answer grants d k c payload a

  -- A request that comes back with an action, which a lookup then finds.
  pub record Answered (grants : Option CapabilityGrantRegistry) (d : CapabilityDefinition)
      (k : String) (c : ExecutionContext) (payload : Json)
      (r : Outcome CapabilityAction × Broker db.State) : Type 0 where
    pub action : CapabilityAction
    pub returned : r.0 ≡ returns action
    pub answer : Answer grants d k c payload action
    pub stored : peek host db r.1 action.id ≡ some action

  stored_after :
      (b : Broker db.State) (a : CapabilityAction)
      → peek host db (save_action host db b a) a.id ≡ some a
  stored_after b a = ground (arith, peek-save host db b a a.id, eq_iff a.id a.id)

  accept-Answered :
      (grants : Option CapabilityGrantRegistry) (b : Broker db.State) (d : CapabilityDefinition)
      (k : String) (c : ExecutionContext) (payload : Json) (t : ℕ) (id : String)
      → Passes grants d k c
      → Answered grants d k c payload
          (accept host db b d k c payload (payload_hash host db payload) t id)
  unfolding accept
  accept-Answered grants b d k c payload t id p =
      elim (Bool-cases (requires_human (effective_risk d c.environment))) [
        | inl risky ↦ rw risky (record {
          action = _;
          returned = refl;
          answer = after_approval p risky refl _ refl refl refl refl;
          stored =
              peek-audit host db _ approval_requested _ _ _ _ id
              ∙ peek-audit host db _ action_requested _ _ _ _ id
              ∙ stored_after _ _;
        })
        | inr calm ↦ rw calm (record {
          action = _;
          returned = refl;
          answer = at_once p calm refl refl;
          stored = peek-audit host db _ action_requested _ _ _ _ id ∙ stored_after _ _;
        })
      ]

  conclude-Answered :
      (grants : Option CapabilityGrantRegistry) (b : Broker db.State) (d : CapabilityDefinition)
      (k : String) (c : ExecutionContext) (payload : Json) (t : ℕ) (id : String) (v : Verdict)
      → Judged grants d k c v
      → Answered grants d k c payload
          (conclude host db v b d k c payload (payload_hash host db payload) t id)
  unfolding conclude
  conclude-Answered grants b d k c payload t id proceeds (lets p) =
      accept-Answered grants b d k c payload t id p
  conclude-Answered grants b d k c payload t id (denied risk mode reason m) (bars no_pass) =
      record {
        action = _;
        returned = refl;
        answer = never no_pass refl refl;
        stored = peek-audit host db _ action_denied _ _ _ _ _ ∙ stored_after _ _;
      }

  grants-start_run :
      (b : Broker db.State) (c : ExecutionContext) → (start_run host db b c).grants ≡ b.grants
  unfolding start_run
  grants-start_run b c = ground arith

  -- The request of a registered capability returns an action, which is then stored: ready at once,
  -- with no approval, if the request passes the grants, the environments and the rule on
  -- production and its effective risk is below L2; waiting for an approval that is bound to the
  -- hash of the payload and expires ten minutes after the request, if it passes at a higher risk;
  -- and rejected if it does not pass.
  pub request_action-Answered :
      (b : Broker db.State) (d : CapabilityDefinition) (k : String) (c : ExecutionContext)
      (payload : Json)
      → get k b.definitions ≡ some d
      → Answered b.grants d k c payload (request_action host db b k c payload)
  unfolding request_action request_known
  request_action-Answered b d k c payload e =
      rw (e, request_action)
        (subst (λ g. Answered g d k c payload (request_known host db b d k c payload))
          (grants-start_run b c) concluded)
    where
      entry : Broker db.State
      entry = start_run host db b c

      concluded : Answered entry.grants d k c payload (request_known host db b d k c payload)
      concluded =
          conclude-Answered entry.grants _ d k c payload (host.now entry.reads)
            (host.uuid entry.draws) (verdict entry.grants d k c) (verdict-Judged entry.grants d k c)
