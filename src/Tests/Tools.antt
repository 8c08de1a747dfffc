-- ===== src/Tests/Tools.antt =====
-- A gateway's headers, and a tester who asks for a read through the tools and executes it.
use bm_agents_world.Common.{
  String, true, ◌≡◌, refl, Option, none, some, [], ◌∷◌, if◌then◌else◌, ◌==◌,
}
use bm_agents_world.Common.Dict.{get, set}
use bm_agents_world.Json.{Json}
use bm_agents_world.Environment.{Process, csv, trim}
use bm_agents_world.Identity.{RequestIdentity, IdentitySource, identity_middleware, is_trusted_mode}
use bm_agents_world.Identity.Access.{Vouched, identity_middleware-Vouched}
use bm_agents_world.Capability.{CapabilityAction, EnvironmentName}
use bm_agents_world.Broker.State.{Broker, make_broker, start_run, get_action, audit}
use bm_agents_world.Broker.Request.{request_action, request_known}
use bm_agents_world.Broker.Execute.{Execution, begin_execution}
use bm_agents_world.Tools.{GovernedToolSurface, Answer, gives, raises, request_tool, execute_tool}
use bm_agents_world.Tools.Scope.{Requested, request_tool-Requested}
use bm_agents_world.Tools.Executions.{Executed, execute_tool-Executed}
use bm_agents_world.Tests.Samples.{host, action_store, read_issue, tally, blank}

abbrev gateway : Process
gateway = record {
  env = λ name. if name == "BM_IDENTITY_MODE" then some " trusted-headers " else none;
  lower = λ s. s;
  decimal = tally;
}

abbrev headers : String → Option String
headers name =
    if name == "x-user-id"
    then some " user "
    else if name == "x-tenant-id"
    then some "tenant"
    else if name == "x-project-ids"
    then some "project, ,other"
    else none

is_trusted : is_trusted_mode gateway ≡ true
unfolding trim
is_trusted = refl

identity_middleware-Vouched_example : Vouched headers (identity_middleware gateway headers)
identity_middleware-Vouched_example = identity_middleware-Vouched gateway headers is_trusted

csv_drops_blanks : csv (some " PCC, ,SOP,") ≡ "PCC" ∷ "SOP" ∷ []
unfolding csv
csv_drops_blanks = refl

abbrev someone : Option RequestIdentity
someone = some (record {
  user_id = "user";
  tenant_id = "tenant";
  project_ids = "project" ∷ "other" ∷ [];
  source = IdentitySource.trusted_headers;
})

abbrev surface : GovernedToolSurface
surface = record { pack_name = "qa-agent-pack"; default_agent_id = "tester"; label = "QA" }

abbrev fresh : Broker action_store.State
fresh = make_broker (read_issue ∷ []) ("jira" ∷ []) (some []) none

abbrev asked : Answer CapabilityAction × Broker action_store.State
asked =
    request_tool host action_store gateway someone surface "tester" fresh none "jira.read" "project"
      EnvironmentName.qa Json.null

abbrev given : Answer CapabilityAction → CapabilityAction
given (gives a) = a
given (raises e) = blank

request_tool-Requested_example :
    Requested host action_store gateway someone surface "tester" "project" EnvironmentName.qa
      (given asked.0)
unfolding make_broker get set request_tool request_action request_known start_run
request_tool-Requested_example =
    request_tool-Requested host action_store gateway someone surface "tester" fresh none "jira.read"
      "project" EnvironmentName.qa Json.null (given asked.0) refl

abbrev begun : Answer Execution
begun =
    (execute_tool host action_store gateway someone surface "tester" asked.1 (given asked.0).id).0

abbrev call : Answer Execution → Execution
call (gives e) = e
call (raises e) = record { action = blank; definition = read_issue; adapter = ""; started = 0 }

execute_tool-Executed_example :
    Executed host action_store gateway someone surface "tester" (call begun)
unfolding make_broker get set request_tool request_action request_known start_run execute_tool
    begin_execution get_action audit
execute_tool-Executed_example =
    execute_tool-Executed host action_store gateway someone surface "tester" asked.1
      (given asked.0).id (call begun) refl
