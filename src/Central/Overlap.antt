-- ===== src/Central/Overlap.antt =====
-- Two executions of one action: one after the other, and with both lookups before either save.
use bm_agents_world.Common.{ℕ, String, false, ◌≡◌, ap, refl, sym, ◌∙◌, some, subst}
use bm_agents_world.Capability.{CapabilityAction, CapabilityDefinition, ActionStatus}
use bm_agents_world.Capability.Store.{CapabilityStore}
use bm_agents_world.Broker.State.{Host, is_pending}
use bm_agents_world.Broker.Outcome.{Outcome, returns, throws, cannot_execute}
use bm_agents_world.Broker.Execute.{Execution, start_executing}
use bm_agents_world.Central.{AsyncBroker}
use bm_agents_world.Central.Decide.{get_async, get_found_async}
use bm_agents_world.Central.Execute.{begin_loaded_async, begin_found_async, begin_async}
use bm_agents_world.Central.Checks.{
  Permits, Allowed, Started, starts, barred, begin_found_async-Checked,
}

module _ (host : Host) (db : CapabilityStore) where
  -- A call of an adapter for the action `a`.
  pub record Calls (a : CapabilityAction) (o : Outcome Execution) : Type 0 where
    pub call : Execution
    pub returned : o ≡ returns call
    pub same_action : call.action.id ≡ a.id
    pub same_payload : call.action.payload ≡ a.payload
    pub same_context : call.action.context ≡ a.context

  begin_found_async-Started :
      (b : AsyncBroker db.State) (a : CapabilityAction) (d : CapabilityDefinition)
      → Allowed host db b a d
      → (e : CapabilityDefinition) × Started host db b a e (begin_found_async host db b a)
  begin_found_async-Started b a d x = elim (begin_found_async-Checked host db b a) [
    | starts e y s ↦ (e, s)
    | barred wrong r ↦ absurd (wrong d x)
  ]

  Started-Calls :
      {b : AsyncBroker db.State} {a : CapabilityAction} {d : CapabilityDefinition}
      {r : Outcome Execution × AsyncBroker db.State}
      → Started host db b a d r
      → Calls a r.0
  Started-Calls s = record {
    call = s.call;
    returned = s.returned;
    same_action = rw s.executing refl;
    same_payload = rw s.executing refl;
    same_context = rw s.executing refl;
  }

  get_found_async-here :
      (b : AsyncBroker db.State) (a : CapabilityAction)
      → is_pending a.approval ≡ false
      → get_found_async host db b (some a) ≡ (some a, b)
  unfolding get_found_async
  get_found_async-here b a h = rw h refl

  get_async_here :
      (b : AsyncBroker db.State) (k : String) (a : CapabilityAction)
      → db.get_action k b.store ≡ some a
      → is_pending a.approval ≡ false
      → get_async host db b k ≡ (some a, b)
  unfolding get_async
  get_async_here b k a held settled = rw held (get_found_async-here b a settled)

  -- An overlap of two executions under the id `k`: both look the action up before either saves it.
  unfoldable pub overlap : AsyncBroker db.State → String → (Outcome Execution × Outcome Execution)
  overlap b k =
      let first = get_async host db b k in
      let second = get_async host db first.1 k in
      let one = begin_loaded_async host db second.1 first.0 in
      (one.0, (begin_loaded_async host db one.1 second.0).0)

  Allowed-again :
      {b b' : AsyncBroker db.State} {a : CapabilityAction} {d : CapabilityDefinition}
      → b'.definitions ≡ b.definitions
      → b'.policy ≡ b.policy
      → b'.adapters ≡ b.adapters
      → Allowed host db b a d
      → Allowed host db b' a d
  Allowed-again {a = a} {d = d} definitions policy adapters x = record {
    may = x.may;
    intact = x.intact;
    known = rw definitions x.known;
    permitted = subst (λ o. Permits o d a) (sym policy) x.permitted;
    reachable = rw adapters x.reachable;
  }

  both-Calls :
      (b : AsyncBroker db.State) (a : CapabilityAction) (d : CapabilityDefinition)
      → Allowed host db b a d
      → Calls a (begin_loaded_async host db b (some a)).0
        × Calls a (begin_loaded_async host db (begin_loaded_async host db b (some a)).1 (some a)).0
  unfolding begin_loaded_async
  both-Calls b a d x =
      let (e, s) = begin_found_async-Started b a d x in
      let b' = (begin_found_async host db b a).1 in
      let again : Allowed host db b' a d =
        Allowed-again s.same_definitions s.same_policy s.same_adapters x in
      (Started-Calls s, Started-Calls (begin_found_async-Started b' a d again).1)

  -- Where two executions of an action look it up before either of them has saved it as executing,
  -- and the action passes the checks, both go on to call the adapter, with the same payload and in
  -- the same context.
  pub overlap-Calls :
      (b : AsyncBroker db.State) (k : String) (a : CapabilityAction) (d : CapabilityDefinition)
      → db.get_action k b.store ≡ some a
      → is_pending a.approval ≡ false
      → Allowed host db b a d
      → Calls a (overlap b k).0 × Calls a (overlap b k).1
  unfolding overlap
  overlap-Calls b k a d held settled x =
      rw (get_async_here b k a held settled, get_async_here b k a held settled) (both-Calls b a d x)

  executing_refused :
      (b : AsyncBroker db.State) (a : CapabilityAction) (t : ℕ) (k : String)
      → a.id ≡ k
      → (begin_loaded_async host db b (some (start_executing host db a t))).0
        ≡ throws (cannot_execute k ActionStatus.executing)
  unfolding begin_loaded_async begin_found_async
  executing_refused b a t k named = rw named refl

  after_start_refused :
      (b : AsyncBroker db.State) (k : String) (a : CapabilityAction) (t : ℕ)
      → db.get_action k b.store ≡ some (start_executing host db a t)
      → a.id ≡ k
      → is_pending a.approval ≡ false
      → (begin_async host db b k).0 ≡ throws (cannot_execute k ActionStatus.executing)
  unfolding begin_async
  after_start_refused b k a t held named settled =
      rw (get_async_here b k (start_executing host db a t) held settled)
        (executing_refused b a t k named)

  first_start :
      (b : AsyncBroker db.State) (k : String) (a : CapabilityAction) (d : CapabilityDefinition)
      → db.get_action k b.store ≡ some a
      → is_pending a.approval ≡ false
      → Allowed host db b a d
      → (e : CapabilityDefinition) × Started host db b a e (begin_async host db b k)
  unfolding begin_async begin_loaded_async
  first_start b k a d held settled x =
      rw (get_async_here b k a held settled) (begin_found_async-Started b a d x)

  -- Where the second lookup comes after the first execution has saved the action, only the first
  -- calls the adapter: the second throws that the action is executing.
  pub begin_async_again :
      (b : AsyncBroker db.State) (k : String) (a : CapabilityAction) (d : CapabilityDefinition)
      → db.get_action k b.store ≡ some a
      → a.id ≡ k
      → is_pending a.approval ≡ false
      → Allowed host db b a d
      → Calls a (begin_async host db b k).0
        × ((begin_async host db (begin_async host db b k).1 k).0
            ≡ throws (cannot_execute k ActionStatus.executing))
  begin_async_again b k a d held named settled x =
      let (e, s) = first_start b k a d held settled x in
      (
        Started-Calls s,
        after_start_refused (begin_async host db b k).1 k a s.call.started
            (sym (ap (λ j. db.get_action j (begin_async host db b k).1.store) named)
              ∙ s.stored
              ∙ ap some s.executing)
            named settled,
      )
