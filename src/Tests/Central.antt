-- ===== src/Tests/Central.antt =====
-- A write under the built-in rules of the shared-store broker, and a read under a policy, executed.
use bm_agents_world.Common.{◌≡◌, refl, or_default, none, some, [], ◌∷◌}
use bm_agents_world.Common.Dict.{get, set}
use bm_agents_world.Json.{Json}
use bm_agents_world.Capability.{CapabilityAction, ActionStatus}
use bm_agents_world.Broker.Outcome.{throws, cannot_execute}
use bm_agents_world.Central.{AsyncBroker, request_async, legacy_decision}
use bm_agents_world.Central.Requests.{IsSettled, request_async-IsSettled}
use bm_agents_world.Central.Execute.{begin_async}
use bm_agents_world.Central.Checks.{Allowed}
use bm_agents_world.Central.Overlap.{Calls, overlap, overlap-Calls, begin_async_again}
use bm_agents_world.Tests.Samples.{
  host, action_store, context, write_issue, read_issue, tally, blank,
}

abbrev shared : AsyncBroker action_store.State
shared = record {
  definitions = ("jira.write", write_issue) ∷ [];
  adapters = "jira" ∷ [];
  store = [];
  policy = none;
  grants = none;
  reads = 0;
  draws = 0;
}

request_async-IsSettled_example :
    IsSettled host action_store shared write_issue "jira.write" context Json.null
      (request_async host action_store shared "jira.write" context Json.null)
unfolding get
request_async-IsSettled_example =
    request_async-IsSettled host action_store shared write_issue "jira.write" context Json.null refl

-- A read is ready at once.
abbrev asked : AsyncBroker action_store.State
asked =
    (request_async host action_store
      (record shared {
        definitions = ("jira.read", read_issue) ∷ [];
        policy = some legacy_decision;
      })
      "jira.read" context Json.null).1

abbrev held : CapabilityAction
held = or_default (action_store.get_action (tally 0) asked.store) blank

held-Allowed : Allowed host action_store asked held read_issue
unfolding get set request_async
held-Allowed = record {
  may = refl;
  intact = refl;
  known = refl;
  permitted = (refl, refl, refl);
  reachable = refl;
}

overlap-Calls_example :
    Calls host action_store held (overlap host action_store asked (tally 0)).0
    × Calls host action_store held (overlap host action_store asked (tally 0)).1
unfolding get set request_async
overlap-Calls_example =
    overlap-Calls host action_store asked (tally 0) held read_issue refl refl held-Allowed

begin_async_again_example :
    Calls host action_store held (begin_async host action_store asked (tally 0)).0
    × ((begin_async host action_store (begin_async host action_store asked (tally 0)).1 (tally 0)).0
        ≡ throws (cannot_execute (tally 0) ActionStatus.executing))
unfolding get set request_async
begin_async_again_example =
    begin_async_again host action_store asked (tally 0) held read_issue refl refl refl held-Allowed
