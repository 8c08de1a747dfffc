-- ===== src/Broker/Soundness.antt =====
-- The invariant of the broker: every action that a lookup finds has a status that its approval and
-- its risk level allow, is bound to its payload, and was started at most once.
use bm_agents_world.Common.{
  ℕ, ◌+◌, ◌≤◌, String, Bool, false, ◌≡◌, ◌≢◌, refl, sym, ◌∙◌, subst, Option, none, some, ◌==◌,
  arith, eq_iff, Bool-cases, inl, inr, ◌⊎◌,
}
use bm_agents_world.Capability.{
  CapabilityAction, ActionStatus, ready, pending_approval, executing, executed, failed,
  ApprovalContract, ApprovalStatus, RiskLevel, requires_human,
}
use bm_agents_world.Capability.Store.{CapabilityStore}
use bm_agents_world.Broker.State.{Host, Broker, peek, payload_hash}
use bm_agents_world.Broker.Lifecycle.{Edge, Trail, here, along, Trail-trans}
use bm_agents_world.Broker.Effects.{Same, Writes, executions}

-- The approval is about this action, at its payload and risk level.
abbrev pub IsBound : CapabilityAction → Option ApprovalContract → Type 0
IsBound a none = Unit
IsBound a (some p) =
    (p.action_id ≡ a.id) × (p.payload_hash ≡ a.payload_hash) × (p.risk_level ≡ a.risk_level)

-- An action without an approval needs none; one with an approval has it granted.
abbrev pub IsCleared : RiskLevel → Option ApprovalContract → Type 0
IsCleared r none = requires_human r ≡ false
IsCleared r (some p) = p.status ≡ ApprovalStatus.approved

abbrev pub IsRefused : Option ApprovalContract → Type 0
IsRefused none = Unit
IsRefused (some p) = (p.status ≡ ApprovalStatus.rejected) ⊎ (p.status ≡ ApprovalStatus.expired)

abbrev pub IsAwaiting : Option ApprovalContract → Type 0
IsAwaiting none = ⊥
IsAwaiting (some p) = p.status ≡ ApprovalStatus.pending

-- What each status says of the approval.
abbrev pub IsGated : ActionStatus → RiskLevel → Option ApprovalContract → Type 0
IsGated ready r o = (o ≡ none) × (requires_human r ≡ false)
IsGated pending_approval r o = IsAwaiting o
IsGated ActionStatus.approved r o = (o ≢ none) × IsCleared r o
IsGated ActionStatus.rejected r o = IsRefused o
IsGated _ r o = IsCleared r o

-- How often an action of this status was started.
abbrev pub starts : ActionStatus → ℕ
starts executing = 1
starts executed = 1
starts failed = 1
starts _ = 0

module _ (host : Host) (db : CapabilityStore) where
  pub record IsSound (a : CapabilityAction) : Type 0 where
    pub hashed : a.payload_hash ≡ payload_hash host db a.payload
    pub bound : IsBound a a.approval
    pub gated : IsGated a.status a.risk_level a.approval

  -- What a lookup finds under the key `k`, and how often the log says that `k` was started.
  pub record IsSoundAt (k : String) (a : CapabilityAction) (n : ℕ) : Type 0 where
    pub keyed : a.id ≡ k
    pub sound : IsSound a
    pub started : n ≡ starts a.status

  pub record Inv (b : Broker db.State) : Type 0 where
    pub known :
        (k : String) (a : CapabilityAction)
        → peek host db b k ≡ some a
        → IsSoundAt k a (executions k b.audit_events)
    pub unknown : (k : String) → peek host db b k ≡ none → executions k b.audit_events ≡ 0
    pub fresh : (n : ℕ) → b.draws ≤ n → peek host db b (host.uuid n) ≡ none

  pub Inv-Same : {b b' : Broker db.State} → Same host db b b' → Inv b → Inv b'
  Inv-Same s i = record {
    known = λ k a e. rw (s.counts k) (i.known k a (sym (s.looks k) ∙ e));
    unknown = λ k e. s.counts k ∙ i.unknown k (sym (s.looks k) ∙ e);
    fresh = λ n h. s.looks (host.uuid n) ∙ i.fresh n (omega arith);
  }

  -- Writing a sound action keeps the invariant, if no UUID that is still to come is its id.
  pub Inv-Writes :
      {b b' : Broker db.State} {a : CapabilityAction} {n : ℕ}
      → Writes host db b b' a n
      → IsSound a
      → n + executions a.id b.audit_events ≡ starts a.status
      → ((m : ℕ) → b'.draws ≤ m → a.id ≢ host.uuid m)
      → Inv b
      → Inv b'
  Inv-Writes {b} {b'} {a} {n} w s count apart i = record {
    known = found;
    unknown = missing;
    fresh = λ m h. ground (
      arith,
      w.looks (host.uuid m),
      eq_iff a.id (host.uuid m),
      apart m h,
      i.fresh m (omega arith),
    );
  }
    where
      found :
          (k : String) (x : CapabilityAction)
          → peek host db b' k ≡ some x
          → IsSoundAt k x (executions k b'.audit_events)
      found k x e = elim (Bool-cases (a.id == k)) [
        | inl hit ↦
            let same : a.id ≡ k = (eq_iff a.id k).0 hit in
            let written : a ≡ x = ground (arith, w.looks k) in
            rw (← written)
              (record { keyed = same; sound = s; started = ground (arith, w.counts k, same) })
        | inr other ↦
            let old : peek host db b k ≡ some x = ground (arith, w.looks k) in
            let count : executions k b'.audit_events ≡ executions k b.audit_events =
              ground (arith, w.counts k) in
            rw count (i.known k x old)
      ]

      missing : (k : String) → peek host db b' k ≡ none → executions k b'.audit_events ≡ 0
      missing k e = elim (Bool-cases (a.id == k)) [
        | inl hit ↦ absurd (ground (arith, w.looks k))
        | inr other ↦ ground (arith, w.looks k, w.counts k, i.unknown k)
      ]

  -- The id of an action that is found is no UUID that is still to come.
  pub known_apart :
      {b : Broker db.State} (k : String) (a : CapabilityAction)
      → Inv b
      → peek host db b k ≡ some a
      → (m : ℕ) → b.draws ≤ m
      → a.id ≢ host.uuid m
  known_apart {b} k a i e m h same =
      let clash : peek host db b (host.uuid m) ≡ some a = rw (sym same ∙ (i.known k a e).keyed) e in
      absurd (ground (arith, i.fresh m h))

  -- What every method does: it keeps the invariant, and moves each action along its lifecycle.
  pub record Progress (ends : Bool) (b b' : Broker db.State) : Type 0 where
    pub inv : Inv b'
    pub moves : (k : String) → Trail ends (peek host db b k) (peek host db b' k)

  pub Progress-refl : {ends : Bool} {b : Broker db.State} → Inv b → Progress ends b b
  Progress-refl i = record { inv = i; moves = λ k. here refl }

  pub Progress-trans :
      {ends : Bool} {a b c : Broker db.State}
      → Progress ends a b
      → Progress ends b c
      → Progress ends a c
  Progress-trans p q = record { inv = q.inv; moves = λ k. Trail-trans (p.moves k) (q.moves k) }

  pub Progress-Same :
      {ends : Bool} {b b' : Broker db.State} → Same host db b b' → Inv b → Progress ends b b'
  Progress-Same s i = record { inv = Inv-Same s i; moves = λ k. here (s.looks k) }

  pub Progress-Writes :
      {ends : Bool} {b b' : Broker db.State} {a : CapabilityAction} {n : ℕ}
      → Writes host db b b' a n
      → IsSound a
      → n + executions a.id b.audit_events ≡ starts a.status
      → ((m : ℕ) → b'.draws ≤ m → a.id ≢ host.uuid m)
      → Edge ends (peek host db b a.id) (some a)
      → Inv b
      → Progress ends b b'
  Progress-Writes {ends} {b} {b'} {a} w s count apart edge i = record {
    inv = Inv-Writes w s count apart i;
    moves = moves;
  }
    where
      moves : (k : String) → Trail ends (peek host db b k) (peek host db b' k)
      moves k = elim (Bool-cases (a.id == k)) [
        | inl same ↦ subst (Trail ends (peek host db b k)) (sym (w.looks k ∙ rw same)) (
            along (here refl)
              (subst (λ j. Edge ends (peek host db b j) (some a)) ((eq_iff a.id k).0 same) edge))
        | inr other ↦ here (w.looks k ∙ rw other)
      ]
