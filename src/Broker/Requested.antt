-- ===== src/Broker/Requested.antt =====
-- A request keeps the broker's invariant, if the host's UUIDs do not repeat.
use bm_agents_world.Common.{
  ℕ, suc, ◌≤◌, String, false, ◌≡◌, refl, sym, ◌∙◌, none, arith, Option-cases, Bool-cases, inl, inr,
}
use bm_agents_world.Common.Dict.{get}
use bm_agents_world.Json.{Json}
use bm_agents_world.Capability.{
  CapabilityAction, CapabilityDefinition, ExecutionContext, requires_human, action_requested,
  approval_requested, action_denied, Metadata,
}
use bm_agents_world.Capability.Store.{CapabilityStore}
use bm_agents_world.Broker.State.{Host, Broker, peek, payload_hash, start_run}
use bm_agents_world.Broker.Request.{
  effective_risk, Verdict, denied, proceeds, verdict, deny, accept, conclude, request_known,
  request_action,
}
use bm_agents_world.Broker.Effects.{
  Writes, Same-Writes, ticks-Same, save_action-Writes, audit-Writes, start_run-Same,
}
use bm_agents_world.Broker.Soundness.{
  starts, IsSound, Inv, Inv-Same, Progress, Progress-refl, Progress-trans, Progress-Same,
  Progress-Writes,
}
use bm_agents_world.Broker.Lifecycle.{IsInitial, created}

-- No two draws give the same UUID.
abbrev pub DrawsApart : Host → Type 0
DrawsApart host = (m n : ℕ) → host.uuid m ≡ host.uuid n → m ≡ n

module _ (host : Host) (db : CapabilityStore) (apart : DrawsApart host) where
  -- Writing an action under the UUID that was drawn first.
  new-Progress :
      (b : Broker db.State) (r d : ℕ) {b' : Broker db.State} (a : CapabilityAction)
      → suc b.draws ≤ d
      → Writes host db (record b { reads = r; draws = d }) b' a 0
      → IsSound host db a
      → starts a.status ≡ 0
      → IsInitial a.status
      → a.id ≡ host.uuid b.draws
      → Inv host db b
      → Progress host db false b b'
  new-Progress b r d a drew w s unstarted initial drawn i =
      Progress-Writes host db (Same-Writes host db (ticks-Same host db b r d (omega arith)) w) s
        (omega (arith, i.unknown a.id absent, unstarted))
        (λ m h e. absurd (omega (arith, apart b.draws m (sym drawn ∙ e), w.draws)))
        (created a absent refl initial) i
    where
      absent : peek host db b a.id ≡ none
      absent = rw drawn (i.fresh b.draws (omega arith))

  denied-Progress :
      (b : Broker db.State) (r : ℕ) (a : CapabilityAction) (m : Metadata)
      → IsSound host db a
      → starts a.status ≡ 0
      → IsInitial a.status
      → a.id ≡ host.uuid b.draws
      → Inv host db b
      → Progress host db false b (deny host db (record b { reads = r; draws = suc b.draws }) a m).1
  unfolding deny
  denied-Progress b r a m s unstarted initial drawn i =
      new-Progress b r (suc b.draws) a (omega arith)
        (audit-Writes host db action_denied _ _ _ (save_action-Writes host db _ a)) s unstarted
        initial drawn i

  accept-Progress :
      (b : Broker db.State) (r : ℕ) (d : CapabilityDefinition) (k : String) (c : ExecutionContext)
      (payload : Json) (t : ℕ)
      → Inv host db b
      → Progress host db false b
          (accept host db
            (record b { reads = r; draws = suc b.draws })
            d
            k
            c
            payload
            (payload_hash host db payload)
            t
            (host.uuid b.draws)).1
  unfolding accept
  accept-Progress b r d k c payload t i =
      elim (Bool-cases (requires_human (effective_risk d c.environment))) [
        | inl risky ↦ rw risky (
            new-Progress b r (suc (suc b.draws)) _ (omega arith)
              (audit-Writes host db approval_requested _ _ _
                (audit-Writes host db action_requested _ _ _ (save_action-Writes host db _ _)))
              (record { hashed = refl; bound = (refl, refl, refl); gated = refl }) refl tt refl i)
        | inr calm ↦ rw calm (
            new-Progress b r (suc b.draws) _ (omega arith)
              (audit-Writes host db action_requested _ _ _ (save_action-Writes host db _ _))
              (record { hashed = refl; bound = tt; gated = (refl, calm) }) refl tt refl i)
      ]

  request_known-Progress :
      (b : Broker db.State) (d : CapabilityDefinition) (k : String) (c : ExecutionContext)
      (payload : Json)
      → Inv host db b
      → Progress host db false b (request_known host db b d k c payload).1
  unfolding request_known
  request_known-Progress b d k c payload i =
      Progress-trans host db (Progress-Same host db (start_run-Same host db b c) i)
        (choose (verdict entry.grants d k c))
    where
      entry : Broker db.State
      entry = start_run host db b c

      entry_inv : Inv host db entry
      entry_inv = Inv-Same host db (start_run-Same host db b c) i

      choose :
          (v : Verdict)
          → Progress host db false entry
              (conclude host db v
                (record entry { reads = suc entry.reads; draws = suc entry.draws })
                d
                k
                c
                payload
                (payload_hash host db payload)
                (host.now entry.reads)
                (host.uuid entry.draws)).1
      choose (denied risk mode reason metadata) =
          unfold conclude in
          denied-Progress entry _ _ _ (record { hashed = refl; bound = tt; gated = tt }) refl tt
            refl entry_inv
      choose proceeds = unfold conclude in accept-Progress entry _ d k c payload _ entry_inv

  -- A request keeps the invariant and moves actions along their lifecycle, whatever its outcome.
  pub request_action-Progress :
      (b : Broker db.State) (k : String) (c : ExecutionContext) (payload : Json)
      → Inv host db b
      → Progress host db false b (request_action host db b k c payload).1
  unfolding request_action
  request_action-Progress b k c payload i = elim (Option-cases (get k b.definitions)) [
    | inl e ↦ rw (e, request_action) (Progress-refl host db i)
    | inr (d, e) ↦ rw (e, request_action) (request_known-Progress b d k c payload i)
  ]
