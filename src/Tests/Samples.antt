-- ===== src/Tests/Samples.antt =====
-- A host, a store, a connector and a capability to try the theorems on.
use bm_agents_world.Common.{
  ℕ, zero, suc, String, true, false, ◌≡◌, refl, ap, none, [], ◌∷◌, keep, ◌==◌,
}
use bm_agents_world.Common.Dict.{Dict, get, set, get-set, values}
use bm_agents_world.Capability.{
  CapabilityAction, CapabilityDefinition, ExecutionContext, RiskLevel, ApprovalMode, ActionClass,
  EnvironmentName, ActionStatus,
}
use bm_agents_world.Json.{Json}
use bm_agents_world.Capability.Store.{CapabilityStore}
use bm_agents_world.Policy.Connectors.{
  ApprovedConnector, ApprovedConnectorTool, ConnectorKind, ConnectorStatus, known,
}
use bm_agents_world.Environment.{Process}
use bm_agents_world.Broker.State.{Host}
use bm_agents_world.Broker.Requested.{DrawsApart}

-- As many marks as the number says.
abbrev pub tally : ℕ → String
tally zero = String.[]
tally (suc n) = String.◌∷◌ "*" (tally n)

pub tally_injective : (m n : ℕ) → tally m ≡ tally n → m ≡ n
tally_injective zero zero e = refl
tally_injective zero (suc n) e = absurd (cc)
tally_injective (suc m) zero e = absurd (cc)
tally_injective (suc m) (suc n) e = ap suc (tally_injective m n (cc))

abbrev pub host : Host
host = record {
  now = λ n. n;
  uuid = tally;
  json_sha256 = λ value. "digest";
  locale_le = λ a b. a == b;
  decimal = tally;
}

pub host-DrawsApart : DrawsApart host
host-DrawsApart = tally_injective

-- A store that keeps the actions only.
abbrev pub action_store : CapabilityStore
action_store = record {
  State = Dict CapabilityAction;
  upsert_run = λ c now s.
      (record { id = c.run_id; context = c; created_at = c.requested_at; updated_at = now }, s);
  get_run = λ k s. none;
  list_runs = λ n s. [];
  save_action = λ a now s. set a.id a s;
  get_action = get;
  list_actions_for_run = λ k s. keep (λ a. a.context.run_id == k) (values s);
  append_audit = λ e c now s. s;
  list_audit = λ n s. [];
  get-save = λ k a now s. get-set a.id k a s;
  get-upsert = λ k c now s. refl;
  get-append = λ k e c now s. refl;
}

abbrev pub context : ExecutionContext
context = record {
  run_id = "run";
  user_id = "user";
  agent_id = "tester";
  pack_id = "qa-agent-pack";
  project_id = "project";
  environment = EnvironmentName.qa;
  tenant_id = "tenant";
  requested_at = 7;
}

-- A write of level L2, and a read of level L0.
abbrev pub write_issue : CapabilityDefinition
write_issue = record {
  id = "jira.write";
  system = "jira";
  action = "write";
  description = "Writes an issue";
  risk_level = RiskLevel.l2;
  approval_mode = ApprovalMode.human;
  action_class = ActionClass.external_write;
  external_write = true;
  production_mutation = false;
  allowed_environments = EnvironmentName.qa ∷ [];
  adapter_id = "jira";
}

abbrev pub read_issue : CapabilityDefinition
read_issue = record write_issue {
  id = "jira.read";
  risk_level = RiskLevel.l0;
  approval_mode = ApprovalMode.none;
  action_class = ActionClass.read;
  external_write = false;
}

abbrev tool_for : CapabilityDefinition → ApprovedConnectorTool
tool_for d = record {
  id = d.id;
  capability_ids = d.id ∷ [];
  action_class = known d.action_class;
  max_risk = known d.risk_level;
  environments = known EnvironmentName.qa ∷ [];
}

abbrev pub jira : ApprovedConnector
jira = record {
  id = "jira";
  display_name = "Jira";
  kind = known ConnectorKind.mcp;
  status = known ConnectorStatus.approved;
  systems = "jira" ∷ [];
  transports = [];
  auth = "oauth";
  allowed_packs = "qa" ∷ [];
  tools = tool_for write_issue ∷ tool_for read_issue ∷ [];
}

abbrev pub blank : CapabilityAction
blank = record {
  id = "";
  capability_id = "";
  context = context;
  payload = Json.null;
  payload_hash = "";
  risk_level = RiskLevel.l0;
  approval_mode = ApprovalMode.none;
  status = ActionStatus.ready;
  created_at = 0;
  updated_at = 0;
  execution_started_at = none;
  execution_finished_at = none;
  execution_duration_ms = none;
  approval = none;
  result = none;
  policy_reason = "";
  policy_decision = none;
}

-- A process with no variables set.
abbrev pub no_process : Process
no_process = record { env = λ name. none; lower = λ s. s; decimal = tally }
