-- ===== src/Packs/Catalogue.antt =====
-- The capabilities of the governed packs, under the broker.
use bm_agents_world.Common.{
  String, Bool, true, false, not, ◌≡◌, refl, sym, ◌∙◌, subst, ◌⊎◌, inl, inr, some, List, [], ◌∷◌,
  keep, All, All-Member, Member, Bool-cases, ◌&&◌, ◌||◌, all, both_true, met, truth_apart,
}
use bm_agents_world.Common.ObjectLiteral.{own_value}
use bm_agents_world.Common.Dict.{get}
use bm_agents_world.Json.{Json}
use bm_agents_world.Environment.{Process}
use bm_agents_world.Capability.{
  CapabilityDefinition, CapabilityAction, ActionStatus, EnvironmentName, ExecutionContext,
  requires_human, includes_env, is_prod, is_read, ApprovalContract,
}
use bm_agents_world.Capability.Store.{CapabilityStore}
use bm_agents_world.Broker.State.{Host, Broker, payload_hash}
use bm_agents_world.Broker.Outcome.{Outcome, returns}
use bm_agents_world.Broker.Request.{request_action, effective_risk}
use bm_agents_world.Broker.Rules.{Answer, at_once, after_approval, never, request_action-Answered}
use bm_agents_world.Packs.QaTable.{qa_capabilities}
use bm_agents_world.Packs.FrontendTable.{frontend_capabilities}
use bm_agents_world.Packs.Qa.{available_qa_capabilities, qa_capability_enabled}
use bm_agents_world.Packs.Frontend.{available_frontend_capabilities, frontend_capability_enabled}
use bm_agents_world.Packs.Governance.{
  PackGovernance, resolve_pack_governance, qa_governance, frontend_governance,
}
use bm_agents_world.Packs.Team.{registered_packs}

-- A write is at a level that needs a human.
abbrev IsDisciplined : CapabilityDefinition → Type 0
IsDisciplined d = d.external_write ≡ true → requires_human d.risk_level ≡ true

keep-All : {A : Type 0} (P : A → Type 0) (f : A → Bool) (xs : List A) → All P xs → All P (keep f xs)
keep-All P f [] h = tt
keep-All P f (x ∷ xs) h = elim (Bool-cases (f x)) [
  | inl e ↦ rw (e, All) (h.0, keep-All P f xs h.1)
  | inr e ↦ rw e (keep-All P f xs h.1)
]

All-IsDisciplined :
    (xs : List CapabilityDefinition)
    → all (λ d. not d.external_write || requires_human d.risk_level) xs ≡ true
    → All IsDisciplined xs
All-IsDisciplined [] h = tt
All-IsDisciplined (d ∷ xs) h =
    let (a, b) =
      both_true (not d.external_write || requires_human d.risk_level)
        (all (λ d. not d.external_write || requires_human d.risk_level) xs) h in
    ((λ w. met d.external_write (requires_human d.risk_level) a w), All-IsDisciplined xs b)

-- A request that has not become ready: it waits for an approval of its payload, or is rejected,
-- which it is wherever the capability is not allowed in the environment.
pub record IsHeldBack (d : CapabilityDefinition) (c : ExecutionContext) (hash : String)
    (o : Outcome CapabilityAction) : Type 0 where
  pub action : CapabilityAction
  pub returned : o ≡ returns action
  pub status :
      ((action.status ≡ ActionStatus.pending_approval)
        × ((p : ApprovalContract) × (action.approval ≡ some p) × (p.payload_hash ≡ hash)))
      ⊎ (action.status ≡ ActionStatus.rejected)
  pub outside :
      includes_env d.allowed_environments c.environment ≡ false
      → action.status ≡ ActionStatus.rejected

module _ (host : Host) (db : CapabilityStore) where
  human_everywhere :
      (d : CapabilityDefinition) (e : EnvironmentName)
      → requires_human d.risk_level ≡ true
      → requires_human (effective_risk d e) ≡ true
  unfolding effective_risk
  human_everywhere d e h = elim (Bool-cases (is_prod e && is_read d.action_class)) [
    | inl x ↦ rw x refl
    | inr x ↦ rw x h
  ]

  disciplined-IsHeldBack :
      (b : Broker db.State) (d : CapabilityDefinition) (k : String) (c : ExecutionContext)
      (payload : Json)
      → requires_human d.risk_level ≡ true
      → get k b.definitions ≡ some d
      → IsHeldBack d c (payload_hash host db payload) (request_action host db b k c payload).0
  disciplined-IsHeldBack b d k c payload risky known =
      let r = request_action-Answered host db b d k c payload known in
      held r.action r.returned r.answer
    where
      held :
          (a : CapabilityAction)
          → (request_action host db b k c payload).0 ≡ returns a
          → Answer host db b.grants d k c payload a
          → IsHeldBack d c (payload_hash host db payload) (request_action host db b k c payload).0
      held a e (at_once passes calm ready unset) =
          absurd (truth_apart (sym (human_everywhere d c.environment risky) ∙ calm))
      held a e (after_approval passes human waits p given fresh hash limit) = record {
        action = a;
        returned = e;
        status = inl (waits, (p, given, hash));
        outside = λ h. absurd (truth_apart (sym passes.environment ∙ h));
      }
      held a e (never fails rejected unset) = record {
        action = a;
        returned = e;
        status = inr rejected;
        outside = λ h. rejected;
      }

  available-IsDisciplined :
      (p : Process) (g : PackGovernance)
      → ((g ≡ qa_governance) ⊎ (g ≡ frontend_governance))
      → All IsDisciplined (g.capabilities p)
  unfolding available_qa_capabilities available_frontend_capabilities
  available-IsDisciplined p g (inl e) =
      subst (λ g. All IsDisciplined (g.capabilities p)) (sym e)
        (keep-All IsDisciplined (λ d. qa_capability_enabled p d.id) qa_capabilities
          (All-IsDisciplined qa_capabilities refl))
  available-IsDisciplined p g (inr e) =
      subst (λ g. All IsDisciplined (g.capabilities p)) (sym e)
        (keep-All IsDisciplined (λ d. frontend_capability_enabled p d.id) frontend_capabilities
          (All-IsDisciplined frontend_capabilities refl))

  -- In every environment of the process, each capability of a governed pack that writes to an
  -- external system is held back by a broker that has it registered: its request comes to an
  -- action that waits for an approval bound to the hash of the payload, or to a rejected one,
  -- always the latter where the capability is not allowed in the environment of the request.
  pub capability-IsHeldBack :
      (name : String) (g : PackGovernance) (p : Process) (d : CapabilityDefinition)
      (b : Broker db.State) (k : String) (c : ExecutionContext) (payload : Json)
      → resolve_pack_governance name ≡ own_value g
      → Member d (g.capabilities p)
      → d.external_write ≡ true
      → get k b.definitions ≡ some d
      → IsHeldBack d c (payload_hash host db payload) (request_action host db b k c payload).0
  capability-IsHeldBack name g p d b k c payload governed member write known =
      disciplined-IsHeldBack b d k c payload
        (All-Member IsDisciplined d (g.capabilities p)
          (available-IsDisciplined p g (registered_packs name g governed)) member write)
        known
