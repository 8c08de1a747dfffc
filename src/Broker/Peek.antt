-- ===== src/Broker/Peek.antt =====
-- What the saving and recording methods do to the actions that a lookup finds, and to the log.
use bm_agents_world.Common.{
  ℕ, String, ◌≡◌, refl, Option, none, some, or_else, if◌then◌else◌, ◌==◌, arith, eq_iff,
  Option-cases, inl, inr,
}
use bm_agents_world.Common.Dict.{Dict, get, set, get-set}
use bm_agents_world.Capability.{
  ExecutionContext, CapabilityAction, AuditEvent, ActorType, AuditKind, Metadata,
}
use bm_agents_world.Capability.Store.{CapabilityStore}
use bm_agents_world.Broker.State.{
  Host, Broker, ask, change, start_run, save_action, audit, peek, refresh,
}

module _ (host : Host) (db : CapabilityStore) where
  peek_saved :
      (o : Option db.State) (m : Dict CapabilityAction) (a : CapabilityAction) (n : ℕ) (k : String)
      → or_else (ask (change o (db.save_action a n)) (db.get_action k)) (get k (set a.id a m))
        ≡ (if a.id == k then some a else or_else (ask o (db.get_action k)) (get k m))
  peek_saved none m a n k = get-set a.id k a m
  peek_saved (some s) m a n k = ground (arith, db.get-save k a n s, get-set a.id k a m)

  peek_appended :
      (o : Option db.State) (m : Dict CapabilityAction) (e : AuditEvent) (c : ExecutionContext)
      (n : ℕ) (k : String)
      → or_else (ask (change o (db.append_audit e c n)) (db.get_action k)) (get k m)
        ≡ or_else (ask o (db.get_action k)) (get k m)
  peek_appended none m e c n k = refl
  peek_appended (some s) m e c n k = rw (db.get-append k e c n s)

  -- `saveAction` sets one action and leaves the others.
  pub peek-save :
      (b : Broker db.State) (a : CapabilityAction) (k : String)
      → peek host db (save_action host db b a) k ≡ (if a.id == k then some a else peek host db b k)
  unfolding peek save_action
  peek-save b a k = peek_saved b.store b.actions a _ k

  -- `audit` leaves all actions.
  pub peek-audit :
      (b : Broker db.State) (kind : AuditKind) (a : CapabilityAction) (t : ActorType) (by : String)
      (m : Option Metadata) (k : String)
      → peek host db (audit host db b kind a t by m) k ≡ peek host db b k
  unfolding peek audit
  peek-audit b kind a t by m k = peek_appended b.store b.actions _ a.context _ k

  -- So does `startRun`.
  pub peek-start_run :
      (b : Broker db.State) (c : ExecutionContext) (k : String)
      → peek host db (start_run host db b c) k ≡ peek host db b k
  unfolding peek start_run
  peek-start_run b c k = elim (Option-cases b.store) [
    | inl e ↦ ground arith
    | inr (s, e) ↦ ground (arith, db.get-upsert k c (host.now b.reads) s)
  ]

  -- A lookup does not change what is found.
  pub peek-refresh :
      (b : Broker db.State) (k j : String) → peek host db (refresh host db b k) j ≡ peek host db b j
  unfolding peek refresh
  peek-refresh b k j = elim (Option-cases (ask b.store (db.get_action k))) [
    | inl e ↦ ground arith
    | inr (a, e) ↦ ground (arith, get-set k j a b.actions, eq_iff k j)
  ]
