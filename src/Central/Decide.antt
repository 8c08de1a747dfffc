-- ===== src/Central/Decide.antt =====
-- `getAction` and `decideAction` of `AsyncCapabilityBroker`, each call as a whole.
use bm_agents_world.Common.{suc, String, not, Option, none, some, [], ◌∷◌, if◌then◌else◌, ◌==◌}
use bm_agents_world.Json.{Json, text}
use bm_agents_world.Capability.{
  CapabilityAction, ActorType, Metadata, ApprovalContract, PolicyEffect, PolicySource,
  AppliedPolicyDecision,
}
use bm_agents_world.Capability.Store.{CapabilityStore}
use bm_agents_world.Broker.State.{Host, expire, is_over, is_pending, status_is_pending}
use bm_agents_world.Broker.Outcome.{
  Outcome, returns, throws, action_not_found, needs_no_approval, already_decided, hash_mismatch,
}
use bm_agents_world.Broker.Decide.{Decision, decide_on, decision_event}
use bm_agents_world.Central.{AsyncBroker, audit_async, save_async}

abbrev effect_name : PolicyEffect → String
effect_name PolicyEffect.allow = "allow"
effect_name PolicyEffect.approval = "approval"
effect_name PolicyEffect.deny = "deny"

abbrev source_text : PolicySource → String
source_text PolicySource.local = "local"
source_text PolicySource.opa = "opa"
source_text PolicySource.legacy = "legacy"

abbrev optional_text : Option String → Option Json
optional_text none = none
optional_text (some s) = some (text s)

-- `...action.policyDecision`
abbrev pub spread_decision : Option AppliedPolicyDecision → Metadata
spread_decision none = []
spread_decision (some p) =
    ("effect", some (text (effect_name p.effect)))
    ∷ ("source", some (text (source_text p.source)))
    ∷ ("decisionId", optional_text p.decision_id)
    ∷ ("connectorId", optional_text p.connector_id)
    ∷ ("toolId", optional_text p.tool_id)
    ∷ []

module _ (host : Host) (db : CapabilityStore) where
  open host use {now}

  -- What the lookup makes of the action that the store holds.
  unfoldable pub get_found_async :
      AsyncBroker db.State
      → Option CapabilityAction
      → Option CapabilityAction × AsyncBroker db.State
  unfolding save_async
  get_found_async b none = (none, b)
  get_found_async b (some a) =
      if not (is_pending a.approval)
      then (some a, b)
      else if is_over a.approval (now b.reads)
      then (let a' = expire a (now (suc b.reads)) in
          (some a', save_async host db (record b { reads = suc (suc b.reads) }) a'))
      else (some a, record b { reads = suc b.reads })

  -- `getAction`
  unfoldable pub get_async :
      AsyncBroker db.State → String → Option CapabilityAction × AsyncBroker db.State
  unfolding get_found_async
  get_async b k = get_found_async b (db.get_action k b.store)

  unfoldable pub decide_found_async :
      AsyncBroker db.State
      → CapabilityAction
      → ApprovalContract
      → Decision
      → String
      → Option String
      → Outcome CapabilityAction × AsyncBroker db.State
  unfolding audit_async save_async
  decide_found_async b a p decision by reason =
      if not (status_is_pending p.status)
      then (throws (already_decided p.status), b)
      else if not (p.payload_hash == a.payload_hash)
      then (throws hash_mismatch, b)
      else (let a' = decide_on a p decision by reason (now b.reads) in
          (
            returns a',
            audit_async host db (save_async host db (record b { reads = suc b.reads }) a')
                (decision_event decision) a' ActorType.human by
                (some (("reason", optional_text reason) ∷ spread_decision a'.policy_decision)),
          ))

  -- `decideAction`
  unfoldable pub decide_async :
      AsyncBroker db.State
      → String
      → Decision
      → String
      → Option String
      → Outcome CapabilityAction × AsyncBroker db.State
  unfolding get_async decide_found_async
  decide_async b k decision by reason = elim (get_async b k).0 [
    | none ↦ (throws action_not_found, (get_async b k).1)
    | some a ↦ elim a.approval [
      | none ↦ (throws needs_no_approval, (get_async b k).1)
      | some p ↦ decide_found_async (get_async b k).1 a p decision by reason
    ]
  ]
