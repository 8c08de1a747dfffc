-- ===== src/Broker/Effects.antt =====
-- What a method can do to the broker, seen by lookups and in the log: nothing, or write one action
-- and record events about it.
use bm_agents_world.Common.{
  ℕ, ◌+◌, ◌≤◌, String, Bool, false, ◌≡◌, refl, ◌∙◌, Option, none, some, List, [], ◌∷◌, ◌++◌,
  if◌then◌else◌, ◌==◌, arith,
}
use bm_agents_world.Capability.{
  ExecutionContext, CapabilityAction, AuditEvent, ActorType, AuditKind, action_executing, Metadata,
}
use bm_agents_world.Capability.Store.{CapabilityStore}
use bm_agents_world.Broker.State.{Host, Broker, start_run, save_action, audit, peek, refresh}
use bm_agents_world.Broker.Peek.{peek-save, peek-audit, peek-start_run, peek-refresh}

-- How often the log says that the execution of an action was started.
abbrev pub weight : AuditKind → ℕ
weight action_executing = 1
weight _ = 0

abbrev pub is_about : String → Option String → Bool
is_about k none = false
is_about k (some j) = j == k

unfoldable pub executions : String → List AuditEvent → ℕ
executions k [] = 0
executions k (e ∷ es) = (if is_about k e.action_id then weight e.event else 0) + executions k es

executions-append :
    (k : String) (es : List AuditEvent) (e : AuditEvent)
    → executions k (es ++ e ∷ [])
      ≡ (if is_about k e.action_id then weight e.event else 0) + executions k es
unfolding executions
executions-append k [] e = refl
executions-append k (x ∷ es) e = omega (arith, executions-append k es e)

module _ (host : Host) (db : CapabilityStore) where
  pub record Same (b b' : Broker db.State) : Type 0 where
    pub looks : (k : String) → peek host db b' k ≡ peek host db b k
    pub counts : (k : String) → executions k b'.audit_events ≡ executions k b.audit_events
    pub draws : b.draws ≤ b'.draws

  -- `n` is how often an execution is started.
  pub record Writes (b b' : Broker db.State) (a : CapabilityAction) (n : ℕ) : Type 0 where
    pub looks : (k : String) → peek host db b' k ≡ (if a.id == k then some a else peek host db b k)
    pub counts :
        (k : String)
        → executions k b'.audit_events ≡ (if a.id == k then n else 0) + executions k b.audit_events
    pub draws : b.draws ≤ b'.draws

  pub Same-refl : (b : Broker db.State) → Same b b
  Same-refl b = record { looks = λ k. refl; counts = λ k. refl; draws = omega arith }

  pub Same-trans : {a b c : Broker db.State} → Same a b → Same b c → Same a c
  Same-trans s t = record {
    looks = λ k. t.looks k ∙ s.looks k;
    counts = λ k. t.counts k ∙ s.counts k;
    draws = omega arith;
  }

  pub Same-Writes :
      {a b c : Broker db.State} {x : CapabilityAction} {n : ℕ}
      → Same a b
      → Writes b c x n
      → Writes a c x n
  Same-Writes s w = record {
    looks = λ k. rw (w.looks k, s.looks k);
    counts = λ k. rw (w.counts k, s.counts k);
    draws = omega arith;
  }

  -- Readings of the clock and draws of UUIDs.
  pub ticks-Same :
      (b : Broker db.State) (r d : ℕ) → b.draws ≤ d → Same b (record b { reads = r; draws = d })
  unfolding peek
  ticks-Same b r d h = record { looks = λ k. refl; counts = λ k. refl; draws = h }

  pub refresh-Same : (b : Broker db.State) (k : String) → Same b (refresh host db b k)
  refresh-Same b k = record {
    looks = peek-refresh host db b k;
    counts = λ j. unfold refresh in ground arith;
    draws = unfold refresh in ground arith;
  }

  pub start_run-Same : (b : Broker db.State) (c : ExecutionContext) → Same b (start_run host db b c)
  start_run-Same b c = record {
    looks = peek-start_run host db b c;
    counts = λ j. unfold start_run in ground arith;
    draws = unfold start_run in ground arith;
  }

  pub save_action-Writes :
      (b : Broker db.State) (a : CapabilityAction) → Writes b (save_action host db b a) a 0
  save_action-Writes b a = record {
    looks = peek-save host db b a;
    counts = λ k. unfold save_action in ground arith;
    draws = unfold save_action in omega arith;
  }

  executions-audit :
      (b : Broker db.State) (kind : AuditKind) (a : CapabilityAction) (t : ActorType) (by : String)
      (m : Option Metadata) (k : String)
      → executions k (audit host db b kind a t by m).audit_events
        ≡ (if a.id == k then weight kind else 0) + executions k b.audit_events
  unfolding audit
  executions-audit b kind a t by m k = executions-append k b.audit_events _

  -- An event about the action that was written last.
  pub audit-Writes :
      {b b' : Broker db.State} {a : CapabilityAction} {n : ℕ} (kind : AuditKind) (t : ActorType)
      (by : String) (m : Option Metadata)
      → Writes b b' a n
      → Writes b (audit host db b' kind a t by m) a (weight kind + n)
  audit-Writes {b} {b'} {a} {n} kind t by m w = record {
    looks = λ k. peek-audit host db b' kind a t by m k ∙ w.looks k;
    counts = counted;
    draws = unfold audit in omega arith;
  }
    where
      counted :
          (k : String)
          → executions k (audit host db b' kind a t by m).audit_events
            ≡ (if a.id == k then weight kind + n else 0) + executions k b.audit_events
      counted k = ground (arith, executions-audit b' kind a t by m k, w.counts k)
