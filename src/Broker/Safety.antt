-- ===== src/Broker/Safety.antt =====
-- What no history of calls can bring about.
use bm_agents_world.Common.{
  ℕ, ◌≤◌, String, true, false, ◌≡◌, refl, sym, ◌∙◌, subst, Option, none, some, arith, Option-cases,
  inl, inr, All,
}
use bm_agents_world.Capability.{
  CapabilityAction, ActionStatus, ready, pending_approval, executing, executed, failed,
  ApprovalContract, ApprovalStatus, requires_human, RiskLevel,
}
use bm_agents_world.Capability.Store.{CapabilityStore}
use bm_agents_world.Broker.State.{Host, Broker, peek, payload_hash}
use bm_agents_world.Broker.Lifecycle.{Next, Edge, created, moved, Trail, here, along}
use bm_agents_world.Broker.Effects.{executions}
use bm_agents_world.Broker.Soundness.{IsBound, IsCleared, IsGated, starts, IsSoundAt, Progress}
use bm_agents_world.Broker.Lookup.{get_action-Found}
use bm_agents_world.Broker.Preserved.{
  decide_action-Progress, begin_execution-Progress, settle_execution-Progress,
}
use bm_agents_world.Broker.Requested.{DrawsApart, request_action-Progress}
use bm_agents_world.Broker.System.{
  System, Step, requests, looks, decides, begins, refuses, settles, Reach,
}
use bm_agents_world.Broker.System.Flights.{InFlight}
use bm_agents_world.Broker.System.Reachable.{AreApart, Good, Reach-Good, remove_flights}

module _ (host : Host) (db : CapabilityStore) where
  -- A human has approved this action, at this payload and this risk level.
  pub record WasApproved (k : String) (a : CapabilityAction) : Type 0 where
    pub contract : ApprovalContract
    pub held : a.approval ≡ some contract
    pub granted : contract.status ≡ ApprovalStatus.approved
    pub action : contract.action_id ≡ k
    pub payload : contract.payload_hash ≡ payload_hash host db a.payload
    pub risk : contract.risk_level ≡ a.risk_level

  gated_started :
      (s : ActionStatus) (r : RiskLevel) (o : Option ApprovalContract)
      → IsGated s r o
      → starts s ≡ 1
      → IsCleared r o
  gated_started executing r o g h = g
  gated_started executed r o g h = g
  gated_started failed r o g h = g
  gated_started _ r o g h = absurd (omega arith)

  approved_at :
      (k : String) (a : CapabilityAction) (n : ℕ) (o : Option ApprovalContract)
      → a.approval ≡ o
      → IsSoundAt host db k a n
      → IsCleared a.risk_level o
      → requires_human a.risk_level ≡ true
      → WasApproved k a
  approved_at k a n none e s c h = absurd (true_false (sym h ∙ c))
    where
      true_false : true ≡ false → ⊥
      true_false h = cc
  approved_at k a n (some p) e s c h =
      let (about, hash, level) = subst (IsBound a) e s.sound.bound in
      record {
        contract = p;
        held = e;
        granted = c;
        action = about ∙ s.keyed;
        payload = hash ∙ s.sound.hashed;
        risk = level;
      }

  -- In every reachable state, if no UUID repeats: an action with the risk level L2 or above whose
  -- execution has been started holds an approval that was granted for this action, for the hash
  -- of the payload that it holds, and at its risk level.
  pub executed-WasApproved :
      (unique : DrawsApart host) {s : System db.State} (k : String) (a : CapabilityAction)
      → Reach host db s
      → peek host db s.broker k ≡ some a
      → starts a.status ≡ 1
      → requires_human a.risk_level ≡ true
      → WasApproved k a
  executed-WasApproved unique {s} k a r found started risky =
      approved_at k a _ a.approval refl at
        (gated_started a.status a.risk_level a.approval at.sound.gated started) risky
    where
      at : IsSoundAt host db k a (executions k s.broker.audit_events)
      at = (Reach-Good host db unique r).inv.known k a found

  starts-le : (s : ActionStatus) → starts s ≤ 1
  starts-le executing = omega arith
  starts-le _ = omega arith

  -- In every reachable state, if no UUID repeats: the log has the start of the execution of an
  -- action at most once, however the calls were interleaved.
  pub executed_at_most_once :
      (unique : DrawsApart host) {s : System db.State} (k : String)
      → Reach host db s
      → executions k s.broker.audit_events ≤ 1
  executed_at_most_once unique {s} k r = elim (Option-cases (peek host db s.broker k)) [
    | inl e ↦ omega (arith, good.inv.unknown k e)
    | inr (a, e) ↦ omega (arith, (good.inv.known k a e).started, starts-le a.status)
  ]
    where
      good : Good host db s
      good = Reach-Good host db unique r

  Next-ends : (s t : ActionStatus) → Next false s t → Next true s t
  Next-ends pending_approval ActionStatus.approved h = h
  Next-ends pending_approval ActionStatus.rejected h = h
  Next-ends ready executing h = h
  Next-ends ActionStatus.approved executing h = h
  Next-ends executing executed h = refl
  Next-ends executing failed h = refl
  Next-ends _ _ h = elim h [ ]

  Edge-ends : {o m : Option CapabilityAction} → Edge false o m → Edge true o m
  Edge-ends (created a e f i) = created a e f i
  Edge-ends (moved a a' e f n s) = moved a a' e f (Next-ends a.status a'.status n) s

  Trail-ends : {o m : Option CapabilityAction} → Trail false o m → Trail true o m
  Trail-ends (here e) = here e
  Trail-ends (along t e) = along (Trail-ends t) (Edge-ends e)

  quiet-Trail :
      {b b' : Broker db.State} (t : Broker db.State)
      → t ≡ b'
      → Progress host db false b b'
      → (k : String) → Trail true (peek host db b k) (peek host db t k)
  quiet-Trail {b} t same p k =
      subst (λ x. Trail true (peek host db b k) (peek host db x k)) (sym same)
        (Trail-ends (p.moves k))

  -- From every reachable state, if no UUID repeats: a step moves each action along its lifecycle,
  -- from pending to approved or rejected, from ready or approved to executing, and from there to
  -- executed or failed; a new action is ready, pending or rejected. Its id, capability, context,
  -- payload, payload hash, risk level and time of creation stay.
  pub Step-Trail :
      (unique : DrawsApart host) {s t : System db.State}
      → Reach host db s
      → Step host db s t
      → (k : String) → Trail true (peek host db s.broker k) (peek host db t.broker k)
  Step-Trail unique {s} {t} r (requests k c payload same flying) = quiet-Trail t.broker same (
      request_action-Progress host db unique s.broker k c payload (Reach-Good host db unique r).inv)
  Step-Trail unique {s} {t} r (looks k same flying) =
      quiet-Trail t.broker same
        (get_action-Found host db s.broker k (Reach-Good host db unique r).inv).progress
  Step-Trail unique {s} {t} r (decides k d by reason same flying) =
      quiet-Trail t.broker same
        (decide_action-Progress host db s.broker k d by reason (Reach-Good host db unique r).inv)
  Step-Trail unique {s} {t} r (begins k e result same flying) =
      quiet-Trail t.broker same
        (begin_execution-Progress host db s.broker k (Reach-Good host db unique r).inv)
  Step-Trail unique {s} {t} r (refuses k error result same flying) =
      quiet-Trail t.broker same
        (begin_execution-Progress host db s.broker k (Reach-Good host db unique r).inv)
  Step-Trail unique {s} {t} r (settles before after e out flew same flying) = λ k.
      subst (λ x. Trail true (peek host db s.broker k) (peek host db x k)) (sym same)
        ((settle_execution-Progress host db s.broker e out good.inv flight.stored
            flight.running).moves
          k)
    where
      good : Good host db s
      good = Reach-Good host db unique r

      flight : InFlight host db s.broker e
      flight =
          (remove_flights host db s.broker e out before after
            (subst (All (InFlight host db s.broker)) flew good.flights)
            (subst AreApart flew good.apart)).2
