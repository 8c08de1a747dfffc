-- ===== src/Central/Execute.antt =====
-- `executeAction` of `AsyncCapabilityBroker`, cut where it waits: the lookup of the action, the
-- checks up to the call of the adapter, and what follows the adapter's answer. Spans of the
-- tracer are not modelled.
use bm_agents_world.Common.{
  suc, ◌-◌, String, Bool, true, false, not, ◌&&◌, Option, none, some, ◌++◌, if◌then◌else◌, includes,
}
use mathlib.Core.Option
use bm_agents_world.Common.Dict.{get, set}
use bm_agents_world.Json.{text}
use bm_agents_world.Capability.{
  CapabilityAction, CapabilityDefinition, ExecutionContext, ActorType, action_executing,
  action_denied, Metadata, PolicyEffect, RiskLevel, ApprovalMode,
}
use bm_agents_world.Capability.Store.{CapabilityStore}
use bm_agents_world.Policy.{PolicyDecision}
use bm_agents_world.Broker.State.{Host}
use bm_agents_world.Broker.Outcome.{
  Outcome, returns, throws, BrokerError, action_not_found, cannot_execute, payload_changed,
  not_registered, no_adapter, policy_denied, policy_changed,
}
use bm_agents_world.Broker.Execute.{
  Execution, AdapterOutcome, may_execute, is_tampered, start_executing, finish, result_of,
  final_event, final_metadata,
}
use bm_agents_world.Central.{AsyncBroker, audit_async, save_async, policy_metadata}
use bm_agents_world.Central.Decide.{get_async, spread_decision}

-- `===` on risk levels and on approval modes
abbrev pub risk_eq : RiskLevel → RiskLevel → Bool
risk_eq RiskLevel.l0 RiskLevel.l0 = true
risk_eq RiskLevel.l1 RiskLevel.l1 = true
risk_eq RiskLevel.l2 RiskLevel.l2 = true
risk_eq RiskLevel.l3 RiskLevel.l3 = true
risk_eq RiskLevel.l4 RiskLevel.l4 = true
risk_eq _ _ = false

abbrev pub mode_eq : ApprovalMode → ApprovalMode → Bool
mode_eq ApprovalMode.none ApprovalMode.none = true
mode_eq ApprovalMode.standing_policy ApprovalMode.standing_policy = true
mode_eq ApprovalMode.human ApprovalMode.human = true
mode_eq ApprovalMode.privileged_process ApprovalMode.privileged_process = true
mode_eq _ _ = false

abbrev pub is_deny : PolicyEffect → Bool
is_deny PolicyEffect.deny = true
is_deny _ = false

module _ (host : Host) (db : CapabilityStore) where
  open host use {now}

  -- The audit of a refusal at execution, which then throws.
  unfoldable pub bar_async :
      AsyncBroker db.State
      → CapabilityAction
      → Metadata
      → BrokerError
      → Outcome Execution × AsyncBroker db.State
  unfolding audit_async
  bar_async b a metadata error = (
    throws error,
    audit_async host db b action_denied a ActorType.system "central-policy" (some metadata),
  )

  -- The last part before the wait for the adapter.
  unfoldable pub start_async :
      AsyncBroker db.State
      → CapabilityAction
      → CapabilityDefinition
      → Outcome Execution × AsyncBroker db.State
  unfolding audit_async save_async
  start_async b a d =
      if not (includes b.adapters d.adapter_id)
      then (throws (no_adapter d.adapter_id), b)
      else (let t = now b.reads in
          let a' = start_executing host db a t in
          (
            returns (record { action = a'; definition = d; adapter = d.adapter_id; started = t }),
            audit_async host db (save_async host db (record b { reads = suc b.reads }) a')
                action_executing a' ActorType.system "capability-broker"
                (Option.map (λ p. spread_decision (some p)) a'.policy_decision),
          ))

  -- The policy is asked again where there is one.
  unfoldable pub recheck_async :
      Option (CapabilityDefinition → ExecutionContext → PolicyDecision)
      → AsyncBroker db.State
      → CapabilityAction
      → CapabilityDefinition
      → Outcome Execution × AsyncBroker db.State
  unfolding bar_async start_async policy_metadata set
  recheck_async none b a d = start_async b a d
  recheck_async (some evaluate) b a d =
      let p = evaluate d a.context in
      if is_deny p.effect
      then bar_async b a (policy_metadata p) (policy_denied p.reason)
      else if not (risk_eq p.risk_level a.risk_level && mode_eq p.approval_mode a.approval_mode)
      then bar_async b a
          (set "reason" (some (text "policy_changed_after_request")) (policy_metadata p))
          policy_changed
      else start_async b a d

  unfoldable pub begin_found_async :
      AsyncBroker db.State → CapabilityAction → Outcome Execution × AsyncBroker db.State
  unfolding recheck_async
  begin_found_async b a =
      if not (may_execute a.status)
      then (throws (cannot_execute a.id a.status), b)
      else if is_tampered a.approval a.payload_hash
      then (throws payload_changed, b)
      else elim (get a.capability_id b.definitions) [
        | none ↦ (throws (not_registered a.capability_id), b)
        | some d ↦ recheck_async b.policy b a d
      ]

  -- What the method does with what its lookup found.
  unfoldable pub begin_loaded_async :
      AsyncBroker db.State → Option CapabilityAction → Outcome Execution × AsyncBroker db.State
  unfolding begin_found_async
  begin_loaded_async b none = (throws action_not_found, b)
  begin_loaded_async b (some a) = begin_found_async b a

  -- The method up to the wait for the adapter, where no other call comes in between.
  unfoldable pub begin_async :
      AsyncBroker db.State → String → Outcome Execution × AsyncBroker db.State
  unfolding begin_loaded_async get_async
  begin_async b k = let (found, b') = get_async host db b k in begin_loaded_async b' found

  -- The rest of the method, both branches of its `try`.
  unfoldable pub settle_async :
      AsyncBroker db.State
      → Execution
      → AdapterOutcome
      → Outcome CapabilityAction × AsyncBroker db.State
  unfolding audit_async save_async
  settle_async b e r =
      let t = now b.reads in
      let duration = now (suc b.reads) - e.started in
      let a = finish host db e.action r t duration in
      (
        returns a,
        audit_async host db (save_async host db (record b { reads = suc (suc b.reads) }) a)
            (final_event host db (result_of host db r)) a ActorType.system e.adapter
            (some (final_metadata host db r duration ++ spread_decision a.policy_decision)),
      )
