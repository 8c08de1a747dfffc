-- ===== src/Broker/Lookup.antt =====
-- `getAction` and the invariant: a lookup returns what is stored, once a lapsed approval has been
-- marked as expired.
use bm_agents_world.Common.{
  ℕ, suc, String, Bool, true, false, ◌≡◌, refl, sym, ◌∙◌, ap, subst, Option, none, some, arith,
  eq_iff, Option-cases, Bool-cases, inl, inr,
}
use bm_agents_world.Capability.{
  CapabilityAction, ActionStatus, pending_approval, ApprovalContract, ApprovalStatus, RiskLevel,
}
use bm_agents_world.Capability.Store.{CapabilityStore}
use bm_agents_world.Broker.State.{
  Host, Broker, peek, get_action, refresh, expire, is_pending, is_over, save_action,
}
use bm_agents_world.Broker.Effects.{
  Same, Writes, executions, Same-trans, Same-Writes, refresh-Same, ticks-Same, save_action-Writes,
}
use bm_agents_world.Broker.Soundness.{
  IsGated, starts, IsSound, IsSoundAt, Inv, known_apart, Progress, Progress-Same, Progress-Writes,
}
use bm_agents_world.Broker.Lifecycle.{Next, SameRequest, moved}

-- An action whose approval is pending waits for it.
pub gated_pending :
    (s : ActionStatus) (r : RiskLevel) (p : ApprovalContract)
    → IsGated s r (some p)
    → p.status ≡ ApprovalStatus.pending
    → s ≡ pending_approval
gated_pending pending_approval r p g e = refl
gated_pending _ r p g e = ground arith

module _ (host : Host) (db : CapabilityStore) where
  expire-IsSound :
      (a : CapabilityAction) (o : Option ApprovalContract) (now : ℕ)
      → IsSound host db a
      → a.approval ≡ o
      → is_pending o ≡ true
      → IsSound host db (expire a now)
  expire-IsSound a none now s e h = cc
  expire-IsSound a (some p) now s e h = record {
    hashed = s.hashed;
    bound = rw e (rw e at s.bound);
    gated = rw e (inr refl);
  }

  pending_status :
      (a : CapabilityAction) (o : Option ApprovalContract)
      → IsSound host db a
      → a.approval ≡ o
      → is_pending o ≡ true
      → a.status ≡ pending_approval
  pending_status a none s e h = cc
  pending_status a (some p) s e h =
      gated_pending a.status a.risk_level p (rw e at s.gated) (ground arith)

  same_request : (a : CapabilityAction) (now : ℕ) → SameRequest a (expire a now)
  same_request a now = record {
    id = refl;
    capability_id = refl;
    context = refl;
    payload = refl;
    payload_hash = refl;
    risk_level = refl;
    created_at = refl;
  }

  -- The two ways in which `getAction` comes out at an action that is stored.
  pub data Looks (b : Broker db.State) (k : String) (a : CapabilityAction)
      : Option CapabilityAction × Broker db.State → Type 0 where
    valid : (b' : Broker db.State) → Same host db b b' → Looks b k a (some a, b')
    lapsed :
        (b' : Broker db.State) (tested now : ℕ)
        → is_pending a.approval ≡ true
        → is_over a.approval tested ≡ true
        → Writes host db b b' (expire a now) 0
        → Looks b k a (some (expire a now), b')

  pub get_action-Looks :
      (b : Broker db.State) (k : String) (a : CapabilityAction)
      → peek host db b k ≡ some a
      → Looks b k a (get_action host db b k)
  get_action-Looks b k a e = elim (Bool-cases (is_pending a.approval)) [
    | inr free ↦ subst (Looks b k a) (sym (settled free)) (valid _ (refresh-Same host db b k))
    | inl waiting ↦ elim (Bool-cases test) [
      | inl over ↦ subst (Looks b k a) (sym (stale waiting over)) (
          lapsed _ (host.now (refresh host db b k).reads) _ waiting over (
            Same-Writes host db
              (Same-trans host db (refresh-Same host db b k)
                (ticks-Same host db (refresh host db b k) _ _ (omega arith)))
              (save_action-Writes host db _ _)))
      | inr live ↦ subst (Looks b k a) (sym (current waiting live)) (
          valid _ (
            Same-trans host db (refresh-Same host db b k)
              (ticks-Same host db (refresh host db b k) _ _ (omega arith))))
    ]
  ]
    where
      test : Bool
      test = is_over a.approval (host.now (refresh host db b k).reads)

      later : CapabilityAction
      later = expire a (host.now (suc (refresh host db b k).reads))

      stale :
          is_pending a.approval ≡ true
          → test ≡ true
          → get_action host db b k ≡ (
            some later,
            save_action host db
                (record (refresh host db b k) { reads = suc (suc (refresh host db b k).reads) })
                later,
          )
      stale w h = unfold get_action in rw (e, get_action) (rw (w, h))

      current :
          is_pending a.approval ≡ true
          → test ≡ false
          → get_action host db b k
            ≡ (some a, record (refresh host db b k) { reads = suc (refresh host db b k).reads })
      current w h = unfold get_action in rw (e, get_action) (rw (w, h))

      settled :
          is_pending a.approval ≡ false → get_action host db b k ≡ (some a, refresh host db b k)
      settled w = unfold get_action in rw (e, get_action) (rw w)

  pub get_action_missing :
      (b : Broker db.State) (k : String)
      → peek host db b k ≡ none
      → get_action host db b k ≡ (none, refresh host db b k)
  get_action_missing b k e = unfold get_action in rw (e, get_action)

  -- What the other methods rely on: a lookup keeps the invariant, returns what is then stored, and
  -- draws no UUID.
  pub record Found (b : Broker db.State) (k : String)
      (r : Option CapabilityAction × Broker db.State) : Type 0 where
    pub progress : Progress host db false b r.1
    pub stored : peek host db r.1 k ≡ r.0

  Looks-Found :
      {b : Broker db.State} {k : String} {a : CapabilityAction}
      {r : Option CapabilityAction × Broker db.State}
      → Inv host db b
      → peek host db b k ≡ some a
      → Looks b k a r
      → Found b k r
  Looks-Found {k} {a} i e (valid b' s) = record {
    progress = Progress-Same host db s i;
    stored = s.looks k ∙ e;
  }
  Looks-Found {b} {k} {a} i e (lapsed b' tested now waiting over w) = record {
    progress =
        Progress-Writes host db w (expire-IsSound a a.approval now at.sound refl waiting)
          (rw at.keyed (omega (arith, at.started, ap starts idle)))
          (λ m h. known_apart host db k a i e m (omega arith))
          (moved a (expire a now) (ap (peek host db b) at.keyed ∙ e) refl
            (subst (λ s. Next false s ActionStatus.rejected) (sym idle) tt) (same_request a now))
          i;
    stored = ground (arith, w.looks k, eq_iff a.id k, at.keyed);
  }
    where
      at : IsSoundAt host db k a (executions k b.audit_events)
      at = i.known k a e

      idle : a.status ≡ pending_approval
      idle = pending_status a a.approval at.sound refl waiting

  pub get_action-Found :
      (b : Broker db.State) (k : String) → Inv host db b → Found b k (get_action host db b k)
  get_action-Found b k i = elim (Option-cases (peek host db b k)) [
    | inl e ↦ subst (Found b k) (sym (get_action_missing b k e)) (record {
      progress = Progress-Same host db (refresh-Same host db b k) i;
      stored = (refresh-Same host db b k).looks k ∙ e;
    })
    | inr (a, e) ↦ Looks-Found i e (get_action-Looks b k a e)
  ]
