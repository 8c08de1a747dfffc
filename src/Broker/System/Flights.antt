-- ===== src/Broker/System/Flights.antt =====
-- The executions that are in flight: each is stored as executing, and no two are of one action.
use bm_agents_world.Common.{
  suc, ◌-◌, String, true, false, ◌≡◌, ◌≢◌, refl, sym, ◌∙◌, ap, subst, Option, none, some, arith,
  Option-cases, Bool-cases, inl, inr, includes, if◌then◌else◌, ◌==◌, eq_iff,
}
use bm_agents_world.Common.Dict.{get}
use bm_agents_world.Capability.{
  CapabilityAction, CapabilityDefinition, ActionStatus, executing, system, action_executing,
}
use bm_agents_world.Capability.Store.{CapabilityStore}
use bm_agents_world.Broker.State.{Host, Broker, peek, get_action, save_action, audit}
use bm_agents_world.Broker.Outcome.{Outcome, returns, throws, BrokerError}
use bm_agents_world.Broker.Execute.{
  Execution, AdapterOutcome, may_execute, is_tampered, start_executing, begin_allowed, begin_found,
  begin_loaded, begin_execution, settle_execution, finish,
}
use bm_agents_world.Broker.Lifecycle.{executing_stays}
use bm_agents_world.Broker.Soundness.{Inv, Progress}
use bm_agents_world.Broker.Lookup.{get_action-Found}
use bm_agents_world.Broker.Preserved.{written}

returns_injective : (e f : Execution) → returns e ≡ returns f → e ≡ f
returns_injective e f h = cc

may_not_executing : (s : ActionStatus) → may_execute s ≡ true → s ≢ executing
may_not_executing s may e = true_false (sym may ∙ ap may_execute e)
  where
    true_false : true ≡ false → ⊥
    true_false h = cc

module _ (host : Host) (db : CapabilityStore) where
  -- The broker after the start of an execution.
  abbrev pub begun_broker : Broker db.State → CapabilityAction → Broker db.State
  begun_broker b a =
      audit host db
        (save_action host db (record b { reads = suc b.reads })
          (start_executing host db a (host.now b.reads)))
        action_executing (start_executing host db a (host.now b.reads)) system "capability-broker"
        none

  -- How the start of an execution comes out, once the action is found.
  pub data Begins (b : Broker db.State) (a : CapabilityAction)
      : Outcome Execution × Broker db.State → Type 0 where
    refused : (error : BrokerError) → Begins b a (throws error, b)
    started :
        (d : CapabilityDefinition)
        → may_execute a.status ≡ true
        → is_tampered a.approval a.payload_hash ≡ false
        → get a.capability_id b.definitions ≡ some d
        → includes b.adapters d.adapter_id ≡ true
        → Begins b a (
          returns (record {
            action = start_executing host db a (host.now b.reads);
            definition = d;
            adapter = d.adapter_id;
            started = host.now b.reads;
          }),
          begun_broker b a,
        )

  pub begin_found-Begins :
      (b : Broker db.State) (a : CapabilityAction) → Begins b a (begin_found host db b a)
  unfolding begin_found
  begin_found-Begins b a = elim (Bool-cases (may_execute a.status)) [
    | inr barred ↦ rw barred (refused _)
    | inl may ↦ elim (Bool-cases (is_tampered a.approval a.payload_hash)) [
      | inl tampered ↦ rw (may, tampered) (refused _)
      | inr intact ↦ rw (may, intact) (allowed may intact)
    ]
  ]
    where
      allowed :
          may_execute a.status ≡ true
          → is_tampered a.approval a.payload_hash ≡ false
          → Begins b a (begin_allowed host db b a)
      allowed may intact = elim (Option-cases (get a.capability_id b.definitions)) [
        | inl e ↦ rw (e, begin_allowed) (refused _)
        | inr (d, e) ↦ elim (Bool-cases (includes b.adapters d.adapter_id)) [
          | inr missing ↦ rw (e, begin_allowed, missing) (refused _)
          | inl present ↦ rw (e, begin_allowed, present) (started d may intact e present)
        ]
      ]

  -- What holds of an execution that was started.
  pub record InFlight (b : Broker db.State) (e : Execution) : Type 0 where
    pub stored : peek host db b e.action.id ≡ some e.action
    pub running : e.action.status ≡ executing

  -- The action was found, might be executed, and its definition and adapter were there.
  pub record Begun (b : Broker db.State) (e : Execution) (b' : Broker db.State) : Type 0 where
    pub action : CapabilityAction
    pub found : peek host db b action.id ≡ some action
    pub may : may_execute action.status ≡ true
    pub intact : is_tampered action.approval action.payload_hash ≡ false
    pub defined : get action.capability_id b.definitions ≡ some e.definition
    pub registered : includes b.adapters e.definition.adapter_id ≡ true
    pub same : e.action ≡ start_executing host db action e.started
    pub adapter : e.adapter ≡ e.definition.adapter_id
    pub flight : InFlight b' e

  begin_found-Begun :
      {b : Broker db.State} {a : CapabilityAction} {r : Outcome Execution × Broker db.State}
      (e : Execution)
      → peek host db b a.id ≡ some a
      → Begins b a r
      → r.0 ≡ returns e
      → Begun b e r.1
  begin_found-Begun e found (refused error) h = cc
  begin_found-Begun {b} {a} e found (started d may intact defined registered) h =
      subst (λ x. Begun b x (begun_broker b a)) (returns_injective _ e h)
        (record {
          action = a;
          found = found;
          may = may;
          intact = intact;
          defined = defined;
          registered = registered;
          same = refl;
          adapter = refl;
          flight = record {
            stored =
                (written host db b (suc b.reads) (start_executing host db a (host.now b.reads))
                    action_executing system "capability-broker" none).looks
                  a.id
                ∙ ground (arith, eq_iff a.id a.id);
            running = refl;
          };
        })

  begin_loaded-Begun :
      (b : Broker db.State) (k : String) (o : Option CapabilityAction) (e : Execution)
      → Inv host db b
      → peek host db b k ≡ o
      → (begin_loaded host db b o).0 ≡ returns e
      → Begun b e (begin_loaded host db b o).1
  unfolding begin_loaded
  begin_loaded-Begun b k none e i found h = cc
  begin_loaded-Begun b k (some a) e i found h =
      begin_found-Begun e (ap (peek host db b) (i.known k a found).keyed ∙ found)
        (begin_found-Begins b a) h

  -- An execution is started only of an action that the lookup before it found ready or approved.
  pub begin_execution-Begun :
      (b : Broker db.State) (k : String) (e : Execution)
      → Inv host db b
      → (begin_execution host db b k).0 ≡ returns e
      → Begun (get_action host db b k).1 e (begin_execution host db b k).1
  unfolding begin_execution
  begin_execution-Begun b k e i h =
      let f = get_action-Found host db b k i in begin_loaded-Begun _ k _ e f.progress.inv f.stored h

  -- An execution in flight stays so while no execution ends.
  pub InFlight-stays :
      {b b' : Broker db.State} {e : Execution}
      → Progress host db false b b'
      → InFlight b e
      → InFlight b' e
  InFlight-stays {e} p f = record {
    stored = executing_stays e.action f.stored f.running (p.moves e.action.id);
    running = f.running;
  }

  -- So a new one is of another action.
  pub Begun-apart :
      {b b' : Broker db.State} {e f : Execution}
      → Begun b e b'
      → InFlight b f
      → f.action.id ≢ e.action.id
  Begun-apart {b} {e} {f} g flight h =
      may_not_executing g.action.status g.may
        (subst (λ o. Status o) (sym stored ∙ g.found) flight.running)
    where
      Status : Option CapabilityAction → Type 0
      Status none = ⊥
      Status (some a) = a.status ≡ executing

      id_same : e.action.id ≡ g.action.id
      id_same = ap (λ x. x.id) g.same

      stored : peek host db b g.action.id ≡ some f.action
      stored = ap (peek host db b) (sym (h ∙ id_same)) ∙ flight.stored

  -- The end of another execution leaves it.
  pub settle_InFlight :
      (b : Broker db.State) (e f : Execution) (r : AdapterOutcome)
      → InFlight b f
      → e.action.id ≢ f.action.id
      → InFlight (settle_execution host db b e r).1 f
  unfolding settle_execution
  settle_InFlight b e f r flight apart = record {
    stored =
        (written host db b (suc (suc b.reads)) _ _ system e.adapter _).looks f.action.id
        ∙ other
        ∙ flight.stored;
    running = flight.running;
  }
    where
      other :
          (if e.action.id == f.action.id
            then some
                (finish host db e.action r (host.now b.reads) (host.now (suc b.reads) - e.started))
            else peek host db b f.action.id)
          ≡ peek host db b f.action.id
      other = ground (arith, eq_iff e.action.id f.action.id)
