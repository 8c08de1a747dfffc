-- ===== src/Broker/Preserved.antt =====
-- Decisions and executions keep the broker's invariant.
use bm_agents_world.Common.{
  ℕ, suc, ◌+◌, String, true, false, ◌≡◌, refl, sym, ◌∙◌, ap, subst, Option, none, some, ◌==◌, arith,
  Option-cases, Bool-cases, inl, inr, includes,
}
use bm_agents_world.Common.Dict.{get}
use bm_agents_world.Capability.{
  CapabilityAction, ActionStatus, ready, pending_approval, executing, ApprovalContract, RiskLevel,
  AuditKind, action_executing, AdapterResult, ActorType, Metadata,
}
use bm_agents_world.Capability.Store.{CapabilityStore}
use bm_agents_world.Broker.State.{Host, Broker, peek, save_action, audit, status_is_pending}
use bm_agents_world.Broker.Decide.{
  Decision, approved, rejected, decide_on, decide_found, decide_loaded, decide_action,
  action_status, decision_event,
}
use bm_agents_world.Broker.Execute.{
  Execution, AdapterOutcome, may_execute, is_tampered, start_executing, begin_allowed, begin_found,
  begin_loaded, begin_execution, finish, final_status, final_event, result_of, settle_execution,
}
use bm_agents_world.Broker.Effects.{
  Writes, executions, weight, Same-Writes, ticks-Same, save_action-Writes, audit-Writes,
}
use bm_agents_world.Broker.Soundness.{
  IsCleared, IsGated, starts, IsSound, IsSoundAt, Inv, known_apart, Progress, Progress-refl,
  Progress-trans, Progress-Writes,
}
use bm_agents_world.Broker.Lifecycle.{Next, SameRequest, moved}
use bm_agents_world.Broker.Lookup.{gated_pending, get_action-Found}

-- What may be executed is cleared, and has not been started.
gated_may :
    (s : ActionStatus) (r : RiskLevel) (o : Option ApprovalContract)
    → IsGated s r o
    → may_execute s ≡ true
    → IsCleared r o × (starts s ≡ 0)
gated_may ready r o (e, low) h = (rw e low, refl)
gated_may ActionStatus.approved r o (_, c) h = (c, refl)
gated_may _ r o g h = cc

module _ (host : Host) (db : CapabilityStore) where
  -- A saved action and one event about it, from a state that differs from `b` in counters alone.
  pub written :
      (b : Broker db.State) (r : ℕ) (a : CapabilityAction) (kind : AuditKind) (t : ActorType)
      (by : String) (m : Option Metadata)
      → Writes host db b
          (audit host db (save_action host db (record b { reads = r }) a) kind a t by m)
          a
          (weight kind + 0)
  written b r a kind t by m = audit-Writes host db kind t by m (
      Same-Writes host db (ticks-Same host db b r b.draws (omega arith))
        (save_action-Writes host db _ a))

  decide_on-IsSound :
      (a : CapabilityAction) (p : ApprovalContract) (d : Decision) (by : String)
      (reason : Option String) (now : ℕ)
      → IsSound host db a
      → a.approval ≡ some p
      → IsSound host db (decide_on a p d by reason now)
  decide_on-IsSound a p approved by reason now s e = record {
    hashed = s.hashed;
    bound = rw e at s.bound;
    gated = (λ x. cc, refl);
  }
  decide_on-IsSound a p rejected by reason now s e = record {
    hashed = s.hashed;
    bound = rw e at s.bound;
    gated = inl refl;
  }

  decision-Next : (d : Decision) → Next false pending_approval (action_status d)
  decision-Next approved = tt
  decision-Next rejected = tt

  decide_on_same :
      (a : CapabilityAction) (p : ApprovalContract) (d : Decision) (by : String)
      (reason : Option String) (now : ℕ)
      → SameRequest a (decide_on a p d by reason now)
  decide_on_same a p d by reason now = record {
    id = refl;
    capability_id = refl;
    context = refl;
    payload = refl;
    payload_hash = refl;
    risk_level = refl;
    created_at = refl;
  }

  start_executing_same :
      (a : CapabilityAction) (t : ℕ) → SameRequest a (start_executing host db a t)
  start_executing_same a t = record {
    id = refl;
    capability_id = refl;
    context = refl;
    payload = refl;
    payload_hash = refl;
    risk_level = refl;
    created_at = refl;
  }

  finish_same :
      (a : CapabilityAction) (r : AdapterOutcome) (t d : ℕ) → SameRequest a (finish host db a r t d)
  finish_same a r t d = record {
    id = refl;
    capability_id = refl;
    context = refl;
    payload = refl;
    payload_hash = refl;
    risk_level = refl;
    created_at = refl;
  }

  may-Next : (s : ActionStatus) → may_execute s ≡ true → Next false s executing
  may-Next ready h = tt
  may-Next ActionStatus.approved h = tt
  may-Next _ h = cc

  decision_starts : (d : Decision) → starts (action_status d) ≡ 0
  decision_starts approved = refl
  decision_starts rejected = refl

  decision_weight : (d : Decision) → weight (decision_event d) ≡ 0
  decision_weight approved = refl
  decision_weight rejected = refl

  decide_found-Progress :
      (b : Broker db.State) (k : String) (a : CapabilityAction) (p : ApprovalContract)
      (d : Decision) (by : String) (reason : Option String)
      → Inv host db b
      → peek host db b k ≡ some a
      → a.approval ≡ some p
      → Progress host db false b (decide_found host db b a p d by reason).1
  unfolding decide_found
  decide_found-Progress b k a p d by reason i found e =
      elim (Bool-cases (status_is_pending p.status)) [
        | inr closed ↦ rw closed (Progress-refl host db i)
        | inl waiting ↦ elim (Bool-cases (p.payload_hash == a.payload_hash)) [
          | inr differs ↦ rw (waiting, differs) (Progress-refl host db i)
          | inl agrees ↦
              rw (waiting, agrees)
                (decided _ waiting (written b (suc b.reads) _ (decision_event d) _ _ _))
        ]
      ]
    where
      at : IsSoundAt host db k a (executions k b.audit_events)
      at = i.known k a found

      decided :
          (b' : Broker db.State)
          → status_is_pending p.status ≡ true
          → Writes host db b b'
              (decide_on a p d by reason (host.now b.reads))
              (weight (decision_event d) + 0)
          → Progress host db false b b'
      decided b' waiting w =
          let idle : a.status ≡ pending_approval =
            gated_pending a.status a.risk_level p (rw e at at.sound.gated) (ground arith) in
          Progress-Writes host db w (decide_on-IsSound a p d by reason _ at.sound e)
            (rw at.keyed
              (omega (arith, at.started, ap starts idle, decision_starts d, decision_weight d)))
            (λ m h. known_apart host db k a i found m (omega arith))
            (moved a _ (ap (peek host db b) at.keyed ∙ found) refl
              (subst (λ s. Next false s (action_status d)) (sym idle) (decision-Next d))
              (decide_on_same a p d by reason (host.now b.reads)))
            i

  decide_loaded-Progress :
      (b : Broker db.State) (k : String) (o : Option CapabilityAction) (d : Decision) (by : String)
      (reason : Option String)
      → Inv host db b
      → peek host db b k ≡ o
      → Progress host db false b (decide_loaded host db b o d by reason).1
  unfolding decide_loaded
  decide_loaded-Progress b k none d by reason i found = Progress-refl host db i
  decide_loaded-Progress b k (some a) d by reason i found = elim (Option-cases a.approval) [
    | inl e ↦ rw e (Progress-refl host db i)
    | inr (p, e) ↦ rw e (decide_found-Progress b k a p d by reason i found e)
  ]

  -- A decision on an approval keeps the invariant and moves actions along their lifecycle, whatever its outcome.
  pub decide_action-Progress :
      (b : Broker db.State) (k : String) (d : Decision) (by : String) (reason : Option String)
      → Inv host db b
      → Progress host db false b (decide_action host db b k d by reason).1
  unfolding decide_action
  decide_action-Progress b k d by reason i =
      let f = get_action-Found host db b k i in
      Progress-trans host db f.progress
        (decide_loaded-Progress _ k _ d by reason f.progress.inv f.stored)

  begin_allowed-Progress :
      (b : Broker db.State) (k : String) (a : CapabilityAction)
      → Inv host db b
      → peek host db b k ≡ some a
      → may_execute a.status ≡ true
      → Progress host db false b (begin_allowed host db b a).1
  unfolding begin_allowed
  begin_allowed-Progress b k a i found may =
      elim (Option-cases (get a.capability_id b.definitions)) [
        | inl e ↦ rw (e, begin_allowed) (Progress-refl host db i)
        | inr (d, e) ↦ elim (Bool-cases (includes b.adapters d.adapter_id)) [
          | inr missing ↦ rw (e, begin_allowed, missing) (Progress-refl host db i)
          | inl present ↦
              rw (e, begin_allowed, present)
                (begun _ (written b (suc b.reads) _ action_executing _ _ _))
        ]
      ]
    where
      at : IsSoundAt host db k a (executions k b.audit_events)
      at = i.known k a found

      begun :
          (b' : Broker db.State)
          → Writes host db b b' (start_executing host db a (host.now b.reads)) (1 + 0)
          → Progress host db false b b'
      begun b' w =
          let (cleared, unstarted) =
            gated_may a.status a.risk_level a.approval at.sound.gated may in
          Progress-Writes host db w
            (record { hashed = at.sound.hashed; bound = at.sound.bound; gated = cleared })
            (rw at.keyed (omega (arith, at.started, unstarted)))
            (λ m h. known_apart host db k a i found m (omega arith))
            (moved a _ (ap (peek host db b) at.keyed ∙ found) refl (may-Next a.status may)
              (start_executing_same a (host.now b.reads)))
            i

  begin_found-Progress :
      (b : Broker db.State) (k : String) (a : CapabilityAction)
      → Inv host db b
      → peek host db b k ≡ some a
      → Progress host db false b (begin_found host db b a).1
  unfolding begin_found
  begin_found-Progress b k a i found = elim (Bool-cases (may_execute a.status)) [
    | inr barred ↦ rw barred (Progress-refl host db i)
    | inl may ↦ elim (Bool-cases (is_tampered a.approval a.payload_hash)) [
      | inl tampered ↦ rw (may, tampered) (Progress-refl host db i)
      | inr intact ↦ rw (may, intact) (begin_allowed-Progress b k a i found may)
    ]
  ]

  begin_loaded-Progress :
      (b : Broker db.State) (k : String) (o : Option CapabilityAction)
      → Inv host db b
      → peek host db b k ≡ o
      → Progress host db false b (begin_loaded host db b o).1
  unfolding begin_loaded
  begin_loaded-Progress b k none i found = Progress-refl host db i
  begin_loaded-Progress b k (some a) i found = begin_found-Progress b k a i found

  -- So does the start of an execution.
  pub begin_execution-Progress :
      (b : Broker db.State) (k : String)
      → Inv host db b
      → Progress host db false b (begin_execution host db b k).1
  unfolding begin_execution
  begin_execution-Progress b k i =
      let f = get_action-Found host db b k i in
      Progress-trans host db f.progress (begin_loaded-Progress _ k _ f.progress.inv f.stored)

  final_starts : (r : AdapterResult) → starts (final_status host db r) ≡ 1
  final_starts r = elim (Bool-cases r.ok) [ inl e ↦ rw e refl | inr e ↦ rw e refl ]

  final_weight : (r : AdapterResult) → weight (final_event host db r) ≡ 0
  final_weight r = elim (Bool-cases r.ok) [ inl e ↦ rw e refl | inr e ↦ rw e refl ]

  final-Next : (r : AdapterResult) → Next true executing (final_status host db r)
  final-Next r = elim (Bool-cases r.ok) [ inl e ↦ rw e refl | inr e ↦ rw e refl ]

  finish-IsGated :
      (r : AdapterResult) (risk : RiskLevel) (o : Option ApprovalContract)
      → IsCleared risk o
      → IsGated (final_status host db r) risk o
  finish-IsGated r risk o c = elim (Bool-cases r.ok) [ inl e ↦ rw e c | inr e ↦ rw e c ]

  -- And so does its end, for an execution whose action is stored as executing.
  pub settle_execution-Progress :
      (b : Broker db.State) (e : Execution) (r : AdapterOutcome)
      → Inv host db b
      → peek host db b e.action.id ≡ some e.action
      → e.action.status ≡ executing
      → Progress host db true b (settle_execution host db b e r).1
  unfolding settle_execution
  settle_execution-Progress b e r i found running =
      settled _ (written b (suc (suc b.reads)) _ (final_event host db (result_of host db r)) _ _ _)
    where
      at : IsSoundAt host db e.action.id e.action (executions e.action.id b.audit_events)
      at = i.known e.action.id e.action found

      cleared : IsCleared e.action.risk_level e.action.approval
      cleared = subst (λ s. IsGated s e.action.risk_level e.action.approval) running at.sound.gated

      settled :
          {t d : ℕ} (b' : Broker db.State)
          → Writes host db b b'
              (finish host db e.action r t d)
              (weight (final_event host db (result_of host db r)) + 0)
          → Progress host db true b b'
      settled b' w =
          Progress-Writes host db w
            (record {
              hashed = at.sound.hashed;
              bound = at.sound.bound;
              gated = finish-IsGated (result_of host db r) _ _ cleared;
            })
            (omega (
              arith,
              at.started,
              ap starts running,
              final_weight (result_of host db r),
              final_starts (result_of host db r),
            ))
            (λ m h. known_apart host db e.action.id e.action i found m (omega arith))
            (moved e.action _ found refl
              (subst (λ s. Next true s (final_status host db (result_of host db r))) (sym running)
                (final-Next (result_of host db r)))
              (finish_same e.action r _ _))
            i
