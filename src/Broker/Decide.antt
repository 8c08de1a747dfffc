-- ===== src/Broker/Decide.antt =====
-- `decideAction` of the broker.
use bm_agents_world.Common.{ℕ, suc, String, not, Option, none, some, [], ◌∷◌, if◌then◌else◌, ◌==◌}
use mathlib.Core.Option
use bm_agents_world.Json.{text}
use bm_agents_world.Capability.{
  CapabilityAction, ActionStatus, ApprovalContract, ApprovalStatus, AuditKind, approval_approved,
  approval_rejected, ActorType,
}
use bm_agents_world.Capability.Store.{CapabilityStore}
use bm_agents_world.Broker.State.{Host, Broker, save_action, audit, get_action, status_is_pending}
use bm_agents_world.Broker.Outcome.{
  Outcome, returns, throws, action_not_found, needs_no_approval, already_decided, hash_mismatch,
}

pub data Decision : Type 0 where
  approved rejected : Decision

abbrev pub approval_status : Decision → ApprovalStatus
approval_status approved = ApprovalStatus.approved
approval_status rejected = ApprovalStatus.rejected

abbrev pub action_status : Decision → ActionStatus
action_status approved = ActionStatus.approved
action_status rejected = ActionStatus.rejected

abbrev pub decision_event : Decision → AuditKind
decision_event approved = approval_approved
decision_event rejected = approval_rejected

-- The fields that a decision sets.
abbrev pub decide_on :
    CapabilityAction → ApprovalContract → Decision → String → Option String → ℕ → CapabilityAction
decide_on a p decision by reason now = record a {
  approval = some (record p {
    status = approval_status decision;
    decided_at = some now;
    decided_by = some by;
    reason = reason;
  });
  status = action_status decision;
  updated_at = now;
}

module _ (host : Host) (db : CapabilityStore) where
  open host use {now}

  -- The method, once the action and its approval are found.
  unfoldable pub decide_found :
      Broker db.State
      → CapabilityAction
      → ApprovalContract
      → Decision
      → String
      → Option String
      → Outcome CapabilityAction × Broker db.State
  decide_found b a p decision by reason =
      if not (status_is_pending p.status)
      then (throws (already_decided p.status), b)
      else if not (p.payload_hash == a.payload_hash)
      then (throws hash_mismatch, b)
      else (let a' = decide_on a p decision by reason (now b.reads) in
          (
            returns a',
            audit host db (save_action host db (record b { reads = suc b.reads }) a')
                (decision_event decision) a' ActorType.human by
                (some (("reason", Option.map text reason) ∷ [])),
          ))

  unfoldable pub decide_loaded :
      Broker db.State
      → Option CapabilityAction
      → Decision
      → String
      → Option String
      → Outcome CapabilityAction × Broker db.State
  unfolding decide_found
  decide_loaded b none decision by reason = (throws action_not_found, b)
  decide_loaded b (some a) decision by reason = elim a.approval [
    | none ↦ (throws needs_no_approval, b)
    | some p ↦ decide_found b a p decision by reason
  ]

  unfoldable pub decide_action :
      Broker db.State
      → String
      → Decision
      → String
      → Option String
      → Outcome CapabilityAction × Broker db.State
  unfolding decide_loaded
  decide_action b k decision by reason =
      let (found, b') = get_action host db b k in decide_loaded b' found decision by reason
