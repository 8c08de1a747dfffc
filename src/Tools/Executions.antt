-- ===== src/Tools/Executions.antt =====
-- In which scope the tools let an agent execute an action.
use bm_agents_world.Common.{
  String, true, ◌≡◌, refl, sym, ◌∙◌, subst, Option, none, some, Bool-cases, Option-cases, inl, inr,
  ◌==◌, includes,
}
use bm_agents_world.Common.Dict.{get}
use bm_agents_world.Environment.{Process}
use bm_agents_world.Identity.{RequestIdentity, passes, current_identity, can_access_context}
use bm_agents_world.Capability.{ExecutionContext, CapabilityAction}
use bm_agents_world.Capability.Store.{CapabilityStore}
use bm_agents_world.Broker.State.{Host, Broker, peek, get_action, expire}
use bm_agents_world.Broker.Lookup.{Looks, valid, lapsed, get_action-Looks, get_action_missing}
use bm_agents_world.Broker.Outcome.{Outcome, returns, throws}
use bm_agents_world.Broker.Execute.{
  Execution, begin_execution, begin_loaded, begin_found, begin_allowed, may_execute, is_tampered,
}
use bm_agents_world.Tools.{
  GovernedToolSurface, Answer, gives, raises, from_broker, in_scope, get_tool, execute_scoped,
  execute_tool,
}
use bm_agents_world.Tools.Scope.{Each, Returned, Checked-cases}

module _ (host : Host) (db : CapabilityStore) where
  -- A lookup that finds an action with the context `c`, and leaves one there.
  record Keeps (c : ExecutionContext) (k : String) (r : Option CapabilityAction × Broker db.State)
      : Type 0 where
    found : CapabilityAction
    was_found : r.0 ≡ some found
    found_context : found.context ≡ c
    left : CapabilityAction
    was_left : peek host db r.1 k ≡ some left
    left_context : left.context ≡ c

  Looks-Keeps :
      {b : Broker db.State} {k : String} {a : CapabilityAction}
      {r : Option CapabilityAction × Broker db.State}
      → peek host db b k ≡ some a
      → Looks host db b k a r
      → Keeps a.context k r
  Looks-Keeps {a = a} e (valid b' s) = record {
    found = a;
    was_found = refl;
    found_context = refl;
    left = a;
    was_left = s.looks _ ∙ e;
    left_context = refl;
  }
  Looks-Keeps {b} {k} {a} e (lapsed b' tested now waiting over w) = elim (Bool-cases (a.id == k)) [
    | inl same ↦ record {
      found = expire a now;
      was_found = refl;
      found_context = refl;
      left = expire a now;
      was_left = w.looks k ∙ rw same refl;
      left_context = refl;
    }
    | inr other ↦ record {
      found = expire a now;
      was_found = refl;
      found_context = refl;
      left = a;
      was_left = w.looks k ∙ rw other e;
      left_context = refl;
    }
  ]

  begin_loaded-context :
      (b : Broker db.State) (a : CapabilityAction)
      → Returned (λ e. e.action.context ≡ a.context) (begin_loaded host db b (some a)).0
  unfolding begin_loaded begin_found begin_allowed
  begin_loaded-context b a = elim (Bool-cases (may_execute a.status)) [
    | inr h ↦ rw (h, Returned) tt
    | inl may ↦ elim (Bool-cases (is_tampered a.approval a.payload_hash)) [
      | inl h ↦ rw (may, h, Returned) tt
      | inr intact ↦ elim (Option-cases (get a.capability_id b.definitions)) [
        | inl h ↦ rw (may, intact, h, Returned) tt
        | inr (d, known) ↦ elim (Bool-cases (includes b.adapters d.adapter_id)) [
          | inr h ↦ rw (may, intact, known, h, Returned) tt
          | inl here ↦ rw (may, intact, known, here, Returned) refl
        ]
      ]
    ]
  ]

  begin_execution-context :
      (b : Broker db.State) (k : String) (a : CapabilityAction)
      → peek host db b k ≡ some a
      → Returned (λ e. e.action.context ≡ a.context) (begin_execution host db b k).0
  unfolding begin_execution
  begin_execution-context b k a h =
      let found : Keeps a.context k (get_action host db b k) =
        Looks-Keeps h (get_action-Looks host db b k a h) in
      let b' = (get_action host db b k).1 in
      rw found.was_found (
        subst
          (λ c. Returned (λ e. e.action.context ≡ c) (begin_loaded host db b' (some found.found)).0)
          found.found_context (begin_loaded-context b' found.found))

module _ (host : Host) (db : CapabilityStore) (p : Process) (stored : Option RequestIdentity)
    (surface : GovernedToolSurface) (agent : String) where
  -- The call of an adapter in the name of an identity.
  pub record Executed (e : Execution) : Type 0 where
    pub identity : RequestIdentity
    pub current : current_identity p stored ≡ passes identity
    pub accessible : can_access_context p identity e.action.context ≡ true

  -- What the check of the scope leaves of an action.
  in_scope-Each :
      (a : CapabilityAction)
      → Each
          (λ o.
            (o ≡ some a)
            × ((identity : RequestIdentity) × (current_identity p stored ≡ passes identity)
                × (can_access_context p identity a.context ≡ true)))
          (in_scope host db p stored surface agent (some a))
  unfolding in_scope
  in_scope-Each a = elim (Checked-cases (current_identity p stored)) [
    | inr (e, h) ↦ rw (h, Each) tt
    | inl (identity, known) ↦ elim (Bool-cases (can_access_context p identity a.context)) [
      | inr h ↦ rw (known, h, Each) tt
      | inl may ↦ rw (known, may, Each) (refl, (identity, known, may))
    ]
  ]

  execute_scoped-Each :
      (b : Broker db.State) (k : String) (x a : CapabilityAction)
      (r : Answer (Option CapabilityAction))
      → peek host db b k ≡ some a
      → x.context ≡ a.context
      → Each
          (λ o.
            (o ≡ some x)
            × ((identity : RequestIdentity) × (current_identity p stored ≡ passes identity)
                × (can_access_context p identity x.context ≡ true)))
          r
      → Each Executed (execute_scoped host db p stored surface agent b k r).0
  unfolding execute_scoped
  execute_scoped-Each b k x a (raises e) held same h = tt
  execute_scoped-Each b k x a (gives none) held same h = tt
  execute_scoped-Each b k x a (gives (some y)) held same h =
      from_broker-Each (begin_execution host db b k).0 (begin_execution-context host db b k a held)
    where
      from_broker-Each :
          (o : Outcome Execution)
          → Returned (λ e. e.action.context ≡ a.context) o
          → Each Executed (from_broker o)
      from_broker-Each (returns e) here = record {
        identity = h.1.0;
        current = h.1.1;
        accessible = rw (here, sym same) h.1.2;
      }
      from_broker-Each (throws e) u = tt

  execute_tool-Each :
      (b : Broker db.State) (k : String)
      → Each Executed (execute_tool host db p stored surface agent b k).0
  unfolding execute_tool get_tool in_scope execute_scoped
  execute_tool-Each b k = elim (Option-cases (peek host db b k)) [
    | inl h ↦ rw (get_action_missing host db b k h, Each) tt
    | inr (a, h) ↦
        let found : Keeps host db a.context k (get_action host db b k) =
          Looks-Keeps host db h (get_action-Looks host db b k a h) in
        rw found.was_found (
          execute_scoped-Each (get_action host db b k).1 k found.found found.left
            (in_scope host db p stored surface agent (some found.found)) found.was_left
            (found.found_context ∙ sym found.left_context) (in_scope-Each found.found))
  ]

  -- Where the tool that executes an action comes to the call of an adapter, there is a current
  -- identity, the action is in its tenant, and it may access the project of the action.
  pub execute_tool-Executed :
      (b : Broker db.State) (k : String) (e : Execution)
      → (execute_tool host db p stored surface agent b k).0 ≡ gives e
      → Executed e
  execute_tool-Executed b k e h = subst (Each Executed) h (execute_tool-Each b k)
