-- ===== src/Tests/Broker.antt =====
-- A capability that a human has to approve, from the request to a second attempt to execute it.
use bm_agents_world.Common.{
  ◌≤◌, String, true, ◌≡◌, refl, or_default, none, some, List, [], ◌∷◌, arith, ◌*◌, or_default,
}
use bm_agents_world.Common.Dict.{get, set}
use bm_agents_world.Json.{Json}
use bm_agents_world.Capability.{
  CapabilityAction, ApprovalContract, ApprovalStatus, ActionStatus, RiskLevel,
}
use bm_agents_world.Broker.State.{
  Host, Broker, make_broker, peek, get_action, start_run, audit, payload_hash,
}
use bm_agents_world.Broker.Outcome.{Outcome, returns, throws, cannot_execute, already_decided}
use bm_agents_world.Broker.Request.{request_action, request_known}
use bm_agents_world.Broker.Decide.{Decision, decide_action}
use bm_agents_world.Broker.Execute.{Execution, begin_execution}
use bm_agents_world.Broker.Effects.{executions}
use bm_agents_world.Broker.Lifecycle.{Trail}
use bm_agents_world.Broker.System.{Step, Reach, start, later, requests, decides, begins, refuses}
use bm_agents_world.Broker.Safety.{
  WasApproved, executed-WasApproved, executed_at_most_once, Step-Trail,
}
use bm_agents_world.Broker.Rules.{Answered, request_action-Answered}
use bm_agents_world.Broker.Expiry.{decide_action_expired}
use bm_agents_world.Tests.Samples.{
  host, host-DrawsApart, action_store, context, write_issue, tally, blank,
}

abbrev fresh_broker : Broker action_store.State
fresh_broker = make_broker (write_issue ∷ []) ("jira" ∷ []) (some []) none

abbrev asked : Broker action_store.State
asked = (request_action host action_store fresh_broker "jira.write" context Json.null).1

-- The id that the request gives to its action.
abbrev first_id : String
first_id = tally 0

abbrev agreed : Broker action_store.State
agreed = (decide_action host action_store asked first_id Decision.approved "lead" none).1

abbrev begun : Outcome Execution × Broker action_store.State
begun = begin_execution host action_store agreed first_id

abbrev flights : Outcome Execution → List Execution
flights (returns e) = e ∷ []
flights (throws e) = []

begun-Step :
    (o : Outcome Execution)
    → begun.0 ≡ o
    → Step host action_store
        (record { broker = agreed; flying = [] })
        (record { broker = begun.1; flying = flights o })
begun-Step (returns e) h = begins first_id e h refl refl
begun-Step (throws e) h = refuses first_id e h refl refl

before_start : Reach host action_store (record { broker = agreed; flying = [] })
unfolding get
before_start =
    later {s = record { broker = asked; flying = [] }}
      (later {s = record { broker = fresh_broker; flying = [] }}
        (start (write_issue ∷ []) ("jira" ∷ []) (some []) none (λ k. refl) refl refl)
        (requests "jira.write" context Json.null refl refl))
      (decides first_id Decision.approved "lead" none refl refl)

after_start : Reach host action_store (record { broker = begun.1; flying = flights begun.0 })
after_start = later before_start (begun-Step begun.0 refl)

-- What the broker holds under the id.
abbrev held : Broker action_store.State → CapabilityAction
held b = or_default (peek host action_store b first_id) blank

executed-WasApproved_example : WasApproved host action_store first_id (held begun.1)
unfolding peek begin_execution decide_action request_action make_broker get get_action set
    request_known start_run audit payload_hash
executed-WasApproved_example =
    executed-WasApproved host action_store host-DrawsApart first_id (held begun.1) after_start refl
      refl refl

executed_at_most_once_example : executions first_id begun.1.audit_events ≤ 1
executed_at_most_once_example =
    executed_at_most_once host action_store host-DrawsApart first_id after_start

Step-Trail_example :
    Trail true (peek host action_store agreed first_id) (peek host action_store begun.1 first_id)
Step-Trail_example =
    Step-Trail host action_store host-DrawsApart before_start (begun-Step begun.0 refl) first_id

request_action-Answered_example :
    Answered host action_store none write_issue "jira.write" context Json.null
      (request_action host action_store fresh_broker "jira.write" context Json.null)
unfolding make_broker get set
request_action-Answered_example =
    request_action-Answered host action_store fresh_broker write_issue "jira.write" context
      Json.null refl

-- A host whose clock moves by ten minutes at each reading.
abbrev slow_host : Host
slow_host = record host { now = λ n. n * 600000 }

abbrev late : Broker action_store.State
late = (request_action slow_host action_store fresh_broker "jira.write" context Json.null).1

abbrev late_action : CapabilityAction
late_action = or_default (peek slow_host action_store late first_id) blank

abbrev no_contract : ApprovalContract
no_contract = record {
  id = "";
  action_id = "";
  payload_hash = "";
  risk_level = RiskLevel.l0;
  status = ApprovalStatus.rejected;
  requested_at = 0;
  expires_at = 0;
  decided_at = none;
  decided_by = none;
  reason = none;
}

abbrev late_contract : ApprovalContract
late_contract = or_default late_action.approval no_contract

decide_action_expired_example :
    ((decide_action slow_host action_store late first_id Decision.approved "lead" none).0
      ≡ throws (already_decided ApprovalStatus.expired))
    × ((begin_execution slow_host action_store late first_id).0
        ≡ throws (cannot_execute late_action.id ActionStatus.rejected))
unfolding peek begin_execution decide_action request_action make_broker get get_action set
    request_known start_run audit payload_hash
decide_action_expired_example =
    decide_action_expired slow_host action_store late first_id late_action late_contract
      Decision.approved "lead" none refl refl refl λ n h. omega (arith, h)
