-- ===== src/Broker/Execute.antt =====
-- `executeAction` of the broker, in two parts.
use bm_agents_world.Common.{
  ℕ, suc, ◌-◌, String, Bool, true, false, not, Option, none, some, [], ◌∷◌, if◌then◌else◌, ◌==◌,
  includes,
}
use mathlib.Core.Option
use bm_agents_world.Common.Dict.{get}
use bm_agents_world.Json.{text, boolean, number}
use bm_agents_world.Capability.{
  CapabilityAction, CapabilityDefinition, ActionStatus, ApprovalContract, AdapterResult,
  AdapterMode, mock, live, AuditKind, action_executing, action_executed, action_failed, system,
  Metadata,
}
use bm_agents_world.Capability.Store.{CapabilityStore}
use bm_agents_world.Broker.State.{Host, Broker, save_action, audit, get_action}
use bm_agents_world.Broker.Outcome.{
  Outcome, returns, throws, action_not_found, cannot_execute, payload_changed, not_registered,
  no_adapter,
}

-- `["ready", "approved"].includes(status)`
abbrev pub may_execute : ActionStatus → Bool
may_execute ActionStatus.ready = true
may_execute ActionStatus.approved = true
may_execute _ = false

-- `action.approval && action.approval.payloadHash !== action.payloadHash`
abbrev pub is_tampered : Option ApprovalContract → String → Bool
is_tampered none hash = false
is_tampered (some p) hash = not (p.payload_hash == hash)

-- A call of an adapter that has not come back: the arguments of the call, the adapter and the time
-- at which it was made.
pub record Execution : Type 0 where
  pub action : CapabilityAction
  pub definition : CapabilityDefinition
  pub adapter : String
  pub started : ℕ

-- `await adapter.execute(…)`: the result, or the message of an exception.
pub data AdapterOutcome : Type 0 where
  resolved : AdapterResult → AdapterOutcome
  threw : String → AdapterOutcome

-- The text of a number, which only the audit metadata holds, is the host's.
module _ (host : Host) (db : CapabilityStore) where
  open host use {now, decimal}

  abbrev pub start_executing : CapabilityAction → ℕ → CapabilityAction
  start_executing a t = record a {
    status = ActionStatus.executing;
    execution_started_at = some t;
    updated_at = t;
  }

  -- The method up to its `await`, once the action is found and may be executed.
  unfoldable pub begin_allowed :
      Broker db.State → CapabilityAction → Outcome Execution × Broker db.State
  begin_allowed b a = elim (get a.capability_id b.definitions) [
    | none ↦ (throws (not_registered a.capability_id), b)
    | some d ↦
        if not (includes b.adapters d.adapter_id)
        then (throws (no_adapter d.adapter_id), b)
        else (let t = now b.reads in
            let a' = start_executing a t in
            (
              returns (record { action = a'; definition = d; adapter = d.adapter_id; started = t }),
              audit host db (save_action host db (record b { reads = suc b.reads }) a')
                  action_executing a' system "capability-broker" none,
            ))
  ]

  unfoldable pub begin_found :
      Broker db.State → CapabilityAction → Outcome Execution × Broker db.State
  unfolding begin_allowed
  begin_found b a =
      if not (may_execute a.status)
      then (throws (cannot_execute a.id a.status), b)
      else if is_tampered a.approval a.payload_hash
      then (throws payload_changed, b)
      else begin_allowed b a

  unfoldable pub begin_loaded :
      Broker db.State → Option CapabilityAction → Outcome Execution × Broker db.State
  unfolding begin_found
  begin_loaded b none = (throws action_not_found, b)
  begin_loaded b (some a) = begin_found b a

  unfoldable pub begin_execution : Broker db.State → String → Outcome Execution × Broker db.State
  unfolding begin_loaded
  begin_execution b k = let (found, b') = get_action host db b k in begin_loaded b' found

  abbrev pub result_of : AdapterOutcome → AdapterResult
  result_of (resolved r) = r
  result_of (threw message) = record {
    ok = false;
    mode = mock;
    external_side_effect = false;
    output = none;
    error = some message;
  }

  abbrev pub final_status : AdapterResult → ActionStatus
  final_status r = if r.ok then ActionStatus.executed else ActionStatus.failed

  abbrev pub final_event : AdapterResult → AuditKind
  final_event r = if r.ok then action_executed else action_failed

  abbrev mode_name : AdapterMode → String
  mode_name mock = "mock"
  mode_name live = "live"

  abbrev pub finish : CapabilityAction → AdapterOutcome → ℕ → ℕ → CapabilityAction
  finish a r t duration = record a {
    status = final_status (result_of r);
    execution_finished_at = some t;
    execution_duration_ms = some duration;
    updated_at = t;
    result = some (result_of r);
  }

  abbrev pub final_metadata : AdapterOutcome → ℕ → Metadata
  final_metadata (resolved r) duration =
      ("mode", some (text (mode_name r.mode)))
      ∷ ("externalSideEffect", some (boolean r.external_side_effect))
      ∷ ("durationMs", some (number (decimal duration)))
      ∷ ("error", Option.map text r.error)
      ∷ []
  final_metadata (threw message) duration =
      ("durationMs", some (number (decimal duration))) ∷ ("error", some (text message)) ∷ []

  -- The rest of the method, both branches of its `try`.
  unfoldable pub settle_execution :
      Broker db.State → Execution → AdapterOutcome → Outcome CapabilityAction × Broker db.State
  settle_execution b e r =
      let t = now b.reads in
      let duration = now (suc b.reads) - e.started in
      let a = finish e.action r t duration in
      (
        returns a,
        audit host db (save_action host db (record b { reads = suc (suc b.reads) }) a)
            (final_event (result_of r)) a system e.adapter (some (final_metadata r duration)),
      )
