-- ===== src/Broker/State.antt =====
-- The broker's state, and its methods that save, look up and record.
use mathlib.Core.List.{reverse}
use bm_agents_world.Common.{
  ℕ, suc, String, Bool, true, false, not, Option, none, some, List, [], ◌∷◌, ◌++◌, or_else, leb,
  if◌then◌else◌, take, keep, ◌==◌, sort_by,
}
use bm_agents_world.Common.Dict.{Dict, get, set, values}
use bm_agents_world.Json.{Json}
use bm_agents_world.Canonical.{canonicalize}
use bm_agents_world.Capability.{
  ExecutionContext, CapabilityDefinition, CapabilityAction, CapabilityRun, AuditEvent, ActorType,
  AuditKind, Metadata, ApprovalContract, ApprovalStatus, pending, expired, ActionStatus,
}
use bm_agents_world.Capability.Store.{CapabilityStore}
use bm_agents_world.Capability.Grants.{CapabilityGrantRegistry}

-- What the program takes from Node.js. The n-th reading of the clock and the n-th random UUID are
-- `now n` and `uuid n`; `json_sha256` is the digest of the JSON text of a value; `locale_le a b`
-- is `a.localeCompare(b) <= 0`; `decimal` is the text of a number.
pub record Host : Type 0 where
  pub now : ℕ → ℕ
  pub uuid : ℕ → String
  pub json_sha256 : Json → String
  pub locale_le : String → String → Bool
  pub decimal : ℕ → String

-- `adapters` holds the ids under which adapters are registered. `reads` and `draws` count the
-- readings of the clock and the UUIDs drawn so far.
pub record Broker (S : Type 0) : Type 0 where
  pub definitions : Dict CapabilityDefinition
  pub adapters : List String
  pub actions : Dict CapabilityAction
  pub runs : Dict CapabilityRun
  pub audit_events : List AuditEvent
  pub store : Option S
  pub grants : Option CapabilityGrantRegistry
  pub reads : ℕ
  pub draws : ℕ

add_definitions : Dict CapabilityDefinition → List CapabilityDefinition → Dict CapabilityDefinition
add_definitions m [] = m
add_definitions m (d ∷ ds) = add_definitions (set d.id d m) ds

-- The constructor.
unfoldable pub make_broker :
    {S : Type 0}
    → List CapabilityDefinition
    → List String
    → Option S
    → Option CapabilityGrantRegistry
    → Broker S
unfolding add_definitions
make_broker definitions adapters store grants = record {
  definitions = add_definitions [] definitions;
  adapters = adapters;
  actions = [];
  runs = [];
  audit_events = [];
  store = store;
  grants = grants;
  reads = 0;
  draws = 0;
}

abbrev pub status_is_pending : ApprovalStatus → Bool
status_is_pending pending = true
status_is_pending _ = false

abbrev pub is_pending : Option ApprovalContract → Bool
is_pending none = false
is_pending (some p) = status_is_pending p.status

-- `Date.parse(approval.expiresAt) <= now`
abbrev pub is_over : Option ApprovalContract → ℕ → Bool
is_over none now = false
is_over (some p) now = leb p.expires_at now

-- `this.store?.get…(…)`
abbrev pub ask {ℓ} : {S : Type 0} {A : Type ℓ} → Option S → (S → Option A) → Option A
ask none f = none
ask (some s) f = f s

abbrev pub change : {S : Type 0} → Option S → (S → S) → Option S
change none f = none
change (some s) f = some (f s)

abbrev expire_approval : Option ApprovalContract → Option ApprovalContract
expire_approval none = none
expire_approval (some p) = some (record p { status = expired })

-- The change that the expiry of its approval makes to an action.
abbrev pub expire : CapabilityAction → ℕ → CapabilityAction
expire a now = record a {
  approval = expire_approval a.approval;
  status = ActionStatus.rejected;
  updated_at = now;
}

abbrev keep_run : Option CapabilityRun → Dict CapabilityRun → Dict CapabilityRun
keep_run none runs = runs
keep_run (some r) runs = set r.id r runs

-- `Math.max(1, Math.min(limit, 500))`
unfoldable pub bounded_limit : ℕ → ℕ
bounded_limit limit = if leb limit 500 then if leb 1 limit then limit else 1 else 500

module _ (host : Host) (db : CapabilityStore) where
  open host use {now, uuid, json_sha256, locale_le}

  unfoldable pub payload_hash : Json → String
  payload_hash payload = json_sha256 (canonicalize locale_le payload)

  -- `startRun`, without its result.
  unfoldable pub start_run : Broker db.State → ExecutionContext → Broker db.State
  start_run b c = elim b.store [
    | none ↦ record b {
      runs =
          set c.run_id
            (record {
              id = c.run_id;
              context = c;
              created_at = c.requested_at;
              updated_at = now b.reads;
            })
            b.runs;
      reads = suc b.reads;
    }
    | some s ↦
        let (run, s') = db.upsert_run c (now b.reads) s in
        record b { runs = set run.id run b.runs; store = some s'; reads = suc b.reads }
  ]

  -- The run that `startRun` returns.
  unfoldable pub started_run : Broker db.State → ExecutionContext → CapabilityRun
  started_run b c = elim b.store [
    | none ↦ record {
      id = c.run_id;
      context = c;
      created_at = c.requested_at;
      updated_at = now b.reads;
    }
    | some s ↦ (db.upsert_run c (now b.reads) s).0
  ]

  -- `saveAction`
  unfoldable pub save_action : Broker db.State → CapabilityAction → Broker db.State
  save_action b a =
      let store = change b.store (db.save_action a (now b.reads)) in
      record b {
        actions = set a.id a b.actions;
        runs = keep_run (ask store (db.get_run a.context.run_id)) b.runs;
        store = store;
        reads = suc b.reads;
      }

  -- `audit`
  unfoldable pub audit :
      Broker db.State
      → AuditKind
      → CapabilityAction
      → ActorType
      → String
      → Option Metadata
      → Broker db.State
  audit b kind a actor_type actor_id metadata = record b {
    audit_events = b.audit_events ++ event ∷ [];
    store = change b.store (db.append_audit event a.context (now (suc b.reads)));
    reads = suc (suc b.reads);
    draws = suc b.draws;
  }
    where
      event : AuditEvent
      event = record {
        id = uuid b.draws;
        timestamp = now b.reads;
        run_id = a.context.run_id;
        actor_type = actor_type;
        actor_id = actor_id;
        event = kind;
        action_id = some a.id;
        capability_id = some a.capability_id;
        payload_hash = some a.payload_hash;
        metadata = metadata;
      }

  -- What `getAction` finds before it looks at the approval: the store's copy, which goes into the
  -- map, or else the map's.
  unfoldable pub peek : Broker db.State → String → Option CapabilityAction
  peek b k = or_else (ask b.store (db.get_action k)) (get k b.actions)

  unfoldable pub refresh : Broker db.State → String → Broker db.State
  refresh b k = elim (ask b.store (db.get_action k)) [
    | none ↦ b
    | some a ↦ record b { actions = set k a b.actions }
  ]

  -- `getAction`
  unfoldable pub get_action : Broker db.State → String → Option CapabilityAction × Broker db.State
  unfolding peek refresh save_action
  get_action b k =
      let b' = refresh b k in
      elim (peek b k) [
        | none ↦ (none, b')
        | some a ↦
            if not (is_pending a.approval)
            then (some a, b')
            else if is_over a.approval (now b'.reads)
            then (
              some (expire a (now (suc b'.reads))),
              save_action (record b' { reads = suc (suc b'.reads) })
                  (expire a (now (suc b'.reads))),
            )
            else (some a, record b' { reads = suc b'.reads })
      ]

  -- `getRun`
  unfoldable pub get_run : Broker db.State → String → Option CapabilityRun × Broker db.State
  get_run b k = elim (ask b.store (db.get_run k)) [
    | none ↦ (get k b.runs, b)
    | some r ↦ (some r, record b { runs = set k r b.runs })
  ]

  -- `listCapabilities`
  unfoldable pub list_capabilities : Broker db.State → List CapabilityDefinition
  list_capabilities b = values b.definitions

  unfoldable pub list_runs : Broker db.State → ℕ → List CapabilityRun
  unfolding sort_by bounded_limit
  list_runs b limit = elim b.store [
    | some s ↦ db.list_runs limit s
    | none ↦
        take (bounded_limit limit) (sort_by (λ x y. leb y.updated_at x.updated_at) (values b.runs))
  ]

  unfoldable pub list_actions_for_run : Broker db.State → String → List CapabilityAction
  unfolding sort_by bounded_limit
  list_actions_for_run b run = elim b.store [
    | some s ↦ db.list_actions_for_run run s
    | none ↦
        sort_by (λ x y. leb x.updated_at y.updated_at)
          (keep (λ a. a.context.run_id == run) (values b.actions))
  ]

  -- `slice(-n).reverse()` is the first n of the reversed array.
  unfoldable pub list_audit : Broker db.State → ℕ → List AuditEvent
  unfolding bounded_limit
  list_audit b limit = elim b.store [
    | some s ↦ db.list_audit limit s
    | none ↦ take (bounded_limit limit) (reverse b.audit_events)
  ]
