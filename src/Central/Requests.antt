-- ===== src/Central/Requests.antt =====
-- How a request comes out under the central policy.
use bm_agents_world.Common.{
  ℕ, suc, ◌+◌, String, true, false, ◌≡◌, refl, sym, ◌∙◌, Option, none, some, Bool-cases, inl, inr,
  eq_refl,
}
use bm_agents_world.Common.Dict.{get}
use bm_agents_world.Json.{Json}
use bm_agents_world.Capability.{
  ExecutionContext, CapabilityDefinition, CapabilityAction, ActionStatus, ActorType, AuditKind,
  action_requested, Metadata, ApprovalContract, ApprovalStatus, PolicyEffect, AppliedPolicyDecision,
}
use bm_agents_world.Capability.Store.{CapabilityStore}
use bm_agents_world.Policy.{PolicyDecision}
use bm_agents_world.Broker.State.{Host, payload_hash}
use bm_agents_world.Broker.Outcome.{Outcome, returns}
use bm_agents_world.Broker.Request.{approval_ttl_ms, is_granted, new_approval, new_action}
use bm_agents_world.Central.{
  AsyncBroker, decision_of, audit_async, save_async, refuse_async, accept_async, await_async,
  decided_action, policy_metadata, conclude_async, request_started, request_async,
}

module _ (host : Host) (db : CapabilityStore) where
  -- What the decision `p` of the policy makes of an action.
  pub data Ruled (p : PolicyDecision) (hash : String) (a : CapabilityAction)
      : PolicyEffect → Type 0 where
    refused :
        a.status ≡ ActionStatus.rejected
        → a.approval ≡ none
        → a.risk_level ≡ p.risk_level
        → Ruled p hash a PolicyEffect.deny
    awaits :
        (c : ApprovalContract)
        → a.status ≡ ActionStatus.pending_approval
        → a.approval ≡ some c
        → c.status ≡ ApprovalStatus.pending
        → c.action_id ≡ a.id
        → c.payload_hash ≡ hash
        → c.risk_level ≡ p.risk_level
        → c.expires_at ≡ a.created_at + approval_ttl_ms
        → a.risk_level ≡ p.risk_level
        → Ruled p hash a PolicyEffect.approval
    at_once :
        a.status ≡ ActionStatus.ready
        → a.approval ≡ none
        → a.risk_level ≡ p.risk_level
        → Ruled p hash a PolicyEffect.allow

  pub record IsSettled (b : AsyncBroker db.State) (d : CapabilityDefinition) (k : String)
      (c : ExecutionContext) (payload : Json) (r : Outcome CapabilityAction × AsyncBroker db.State)
      : Type 0 where
    pub action : CapabilityAction
    pub returned : r.0 ≡ returns action
    pub stored : db.get_action action.id r.1.store ≡ some action
    pub hashed : action.payload_hash ≡ payload_hash host db payload
    pub barred : is_granted b.grants c.agent_id k ≡ false → action.status ≡ ActionStatus.rejected
    pub ruled :
        is_granted b.grants c.agent_id k ≡ true
        → Ruled
            (decision_of b.policy d c)
            (payload_hash host db payload)
            action
            (decision_of b.policy d c).effect

  pub stored-audit :
      (b : AsyncBroker db.State) (kind : AuditKind) (a : CapabilityAction) (t : ActorType)
      (who : String) (m : Option Metadata) (k : String)
      → db.get_action k (audit_async host db b kind a t who m).store ≡ db.get_action k b.store
  unfolding audit_async
  stored-audit b kind a t who m k = db.get-append k _ a.context _ b.store

  pub stored-save :
      (b : AsyncBroker db.State) (a : CapabilityAction)
      → db.get_action a.id (save_async host db b a).store ≡ some a
  unfolding save_async
  stored-save b a = db.get-save a.id a _ b.store ∙ rw (eq_refl a.id) refl

  refuse_stored :
      (b : AsyncBroker db.State) (a : CapabilityAction) (m : Metadata)
      → db.get_action a.id (refuse_async host db b a m).1.store ≡ some a
  unfolding refuse_async
  refuse_stored b a m = stored-audit (save_async host db b a) _ a _ _ _ a.id ∙ stored-save b a

  accept_stored :
      (b : AsyncBroker db.State) (a : CapabilityAction) (m : Metadata)
      → db.get_action a.id (accept_async host db b a m).1.store ≡ some a
  unfolding accept_async
  accept_stored b a m = stored-audit (save_async host db b a) _ a _ _ _ a.id ∙ stored-save b a

  await_stored :
      (b : AsyncBroker db.State) (a : CapabilityAction) (m : Metadata)
      → db.get_action a.id (await_async host db b a m).1.store ≡ some a
  unfolding await_async
  await_stored b a m =
      stored-audit
        (audit_async host db (save_async host db b a) action_requested a ActorType.agent
          a.context.agent_id (some m))
        _ a _ _ _ a.id
      ∙ stored-audit (save_async host db b a) _ a _ _ _ a.id
      ∙ stored-save b a

  -- The part after the grants.
  record Concluded (p : PolicyDecision) (hash : String) (e : PolicyEffect)
      (r : Outcome CapabilityAction × AsyncBroker db.State) : Type 0 where
    action : CapabilityAction
    returned : r.0 ≡ returns action
    stored : db.get_action action.id r.1.store ≡ some action
    hashed : action.payload_hash ≡ hash
    ruled : Ruled p hash action e

  conclude_async-Concluded :
      (e : PolicyEffect) (b : AsyncBroker db.State) (d : CapabilityDefinition) (k : String)
      (c : ExecutionContext) (payload : Json) (hash : String) (t : ℕ) (id : String)
      (p : PolicyDecision) (taken : AppliedPolicyDecision)
      → Concluded p hash e (conclude_async host db e b d k c payload hash t id p taken)
  unfolding conclude_async
  conclude_async-Concluded PolicyEffect.deny b d k c payload hash t id p taken =
      let a = decided_action host db ActionStatus.rejected none d k c payload hash t id p taken in
      record {
        action = a;
        returned = unfold refuse_async in refl;
        stored = refuse_stored b a (policy_metadata p);
        hashed = refl;
        ruled = refused refl refl refl;
      }
  conclude_async-Concluded PolicyEffect.approval b d k c payload hash t id p taken =
      let contract = new_approval (host.uuid b.draws) id hash p.risk_level t in
      let a =
        decided_action host db ActionStatus.pending_approval (some contract) d k c payload hash t id
          p taken in
      record {
        action = a;
        returned = unfold await_async in refl;
        stored = await_stored (record b { draws = suc b.draws }) a (policy_metadata p);
        hashed = refl;
        ruled = unfold new_approval in awaits contract refl refl refl refl refl refl refl refl;
      }
  conclude_async-Concluded PolicyEffect.allow b d k c payload hash t id p taken =
      let a = decided_action host db ActionStatus.ready none d k c payload hash t id p taken in
      record {
        action = a;
        returned = unfold accept_async in refl;
        stored = accept_stored b a (policy_metadata p);
        hashed = refl;
        ruled = at_once refl refl refl;
      }

  started-IsSettled :
      (b : AsyncBroker db.State) (d : CapabilityDefinition) (k : String) (c : ExecutionContext)
      (payload : Json)
      → IsSettled b d k c payload (request_started host db b d k c payload)
  unfolding request_started
  started-IsSettled b d k c payload = elim (Bool-cases (is_granted b.grants c.agent_id k)) [
    | inr shut ↦ rw shut (barred shut _ _ _ (unfold new_action in (refl, refl)))
    | inl granted ↦ rw granted (
        settled granted (
          conclude_async-Concluded (decision_of b.policy d c).effect _ d k c payload _ _ _
            (decision_of b.policy d c) _))
  ]
    where
      true_false : true ≡ false → ⊥
      true_false h = cc

      barred :
          is_granted b.grants c.agent_id k ≡ false
          → (n : AsyncBroker db.State) (a : CapabilityAction) (m : Metadata)
          → (a.status ≡ ActionStatus.rejected) × (a.payload_hash ≡ payload_hash host db payload)
          → IsSettled b d k c payload (refuse_async host db n a m)
      barred shut n a m (s, h) = record {
        action = a;
        returned = unfold refuse_async in refl;
        stored = refuse_stored n a m;
        hashed = h;
        barred = λ _. s;
        ruled = λ granted. absurd (true_false (sym granted ∙ shut));
      }

      settled :
          is_granted b.grants c.agent_id k ≡ true
          → {r : Outcome CapabilityAction × AsyncBroker db.State}
          → Concluded
              (decision_of b.policy d c)
              (payload_hash host db payload)
              (decision_of b.policy d c).effect
              r
          → IsSettled b d k c payload r
      settled granted x = record {
        action = x.action;
        returned = x.returned;
        stored = x.stored;
        hashed = x.hashed;
        barred = λ h. absurd (true_false (sym granted ∙ h));
        ruled = λ h. x.ruled;
      }

  -- The request of a registered capability returns an action that the store then holds, with the
  -- hash of the payload. Without a grant for the agent it is rejected. With one, the decision of
  -- the policy, or of the built-in rules where there is none, fixes its risk level: it is rejected
  -- on deny, ready with no approval on allow, and on approval it waits for an approval that is
  -- bound to the action, the hash and the risk level and expires ten minutes after the request.
  pub request_async-IsSettled :
      (b : AsyncBroker db.State) (d : CapabilityDefinition) (k : String) (c : ExecutionContext)
      (payload : Json)
      → get k b.definitions ≡ some d
      → IsSettled b d k c payload (request_async host db b k c payload)
  unfolding request_async
  request_async-IsSettled b d k c payload e =
      rw (e, request_async) (again (started-IsSettled _ d k c payload))
    where
      again :
          {n : ℕ} {s : db.State} {r : Outcome CapabilityAction × AsyncBroker db.State}
          → IsSettled (record b { store = s; reads = n }) d k c payload r
          → IsSettled b d k c payload r
      again x = record {
        action = x.action;
        returned = x.returned;
        stored = x.stored;
        hashed = x.hashed;
        barred = x.barred;
        ruled = x.ruled;
      }
