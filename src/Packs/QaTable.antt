-- ===== src/Packs/QaTable.antt =====
-- The table `QA_CAPABILITIES` of apps/agent-window/src/server/qa/qa-capabilities.ts.
use bm_agents_world.Common.{true, false, List, [], ◌∷◌}
use bm_agents_world.Capability.{
  CapabilityDefinition, RiskLevel, ApprovalMode, ActionClass, EnvironmentName,
}

abbrev jira_story_read : CapabilityDefinition
jira_story_read = record {
  id = "qa.jira.story.read";
  system = "jira";
  action = "story.read";
  description = "Read a scoped Jira story and acceptance criteria.";
  risk_level = RiskLevel.l0;
  approval_mode = ApprovalMode.none;
  action_class = ActionClass.read;
  external_write = false;
  production_mutation = false;
  allowed_environments =
      EnvironmentName.playground ∷ EnvironmentName.qa ∷ EnvironmentName.prod ∷ [];
  adapter_id = "qa-jira-read-adapter";
}

abbrev jira_duplicate_search : CapabilityDefinition
jira_duplicate_search = record {
  id = "qa.jira.duplicate.search";
  system = "jira";
  action = "bug.duplicate.search";
  description =
      "Search recent unresolved Jira bugs for likely duplicates of an immutable bug-draft artifact.";
  risk_level = RiskLevel.l0;
  approval_mode = ApprovalMode.none;
  action_class = ActionClass.read;
  external_write = false;
  production_mutation = false;
  allowed_environments =
      EnvironmentName.playground ∷ EnvironmentName.qa ∷ EnvironmentName.prod ∷ [];
  adapter_id = "qa-jira-defect-adapter";
}

abbrev bitbucket_change_impact_read : CapabilityDefinition
bitbucket_change_impact_read = record {
  id = "qa.bitbucket.change-impact.read";
  system = "bitbucket";
  action = "change-impact.read";
  description = "Inspect repository metadata and prepare a change-impact summary.";
  risk_level = RiskLevel.l0;
  approval_mode = ApprovalMode.none;
  action_class = ActionClass.read;
  external_write = false;
  production_mutation = false;
  allowed_environments =
      EnvironmentName.playground ∷ EnvironmentName.qa ∷ EnvironmentName.prod ∷ [];
  adapter_id = "qa-bitbucket-read-adapter";
}

abbrev testplan_generate : CapabilityDefinition
testplan_generate = record {
  id = "qa.testplan.generate";
  system = "qa";
  action = "testplan.generate";
  description =
      "Persist an immutable, story-scoped QA test plan artifact (scope, test types, entry/exit criteria, and traceable cases) derived from the story and change-impact reads.";
  risk_level = RiskLevel.l0;
  approval_mode = ApprovalMode.none;
  action_class = ActionClass.read;
  external_write = false;
  production_mutation = false;
  allowed_environments =
      EnvironmentName.playground ∷ EnvironmentName.qa ∷ EnvironmentName.prod ∷ [];
  adapter_id = "qa-testplan-adapter";
}

abbrev database_validation_read : CapabilityDefinition
database_validation_read = record {
  id = "qa.database.validation.read";
  system = "database";
  action = "validation.read";
  description = "Run a bounded read-only QA validation against an approved view.";
  risk_level = RiskLevel.l0;
  approval_mode = ApprovalMode.none;
  action_class = ActionClass.read;
  external_write = false;
  production_mutation = false;
  allowed_environments =
      EnvironmentName.playground ∷ EnvironmentName.qa ∷ EnvironmentName.prod ∷ [];
  adapter_id = "qa-database-read-adapter";
}

abbrev integration_trace : CapabilityDefinition
integration_trace = record {
  id = "qa.integration.trace";
  system = "qa";
  action = "integration.trace";
  description =
      "Correlate a run's test plan, execution result, and bug draft into an immutable traceability artifact with cross-step consistency checks.";
  risk_level = RiskLevel.l0;
  approval_mode = ApprovalMode.none;
  action_class = ActionClass.read;
  external_write = false;
  production_mutation = false;
  allowed_environments =
      EnvironmentName.playground ∷ EnvironmentName.qa ∷ EnvironmentName.prod ∷ [];
  adapter_id = "qa-integration-trace-adapter";
}

abbrev playwright_test_run : CapabilityDefinition
playwright_test_run = record {
  id = "qa.playwright.test.run";
  system = "playwright";
  action = "test.run";
  description =
      "Run an allowlisted isolated Chromium smoke test against a server-configured non-production target and persist evidence artifacts.";
  risk_level = RiskLevel.l1;
  approval_mode = ApprovalMode.standing_policy;
  action_class = ActionClass.test;
  external_write = false;
  production_mutation = false;
  allowed_environments = EnvironmentName.playground ∷ EnvironmentName.qa ∷ [];
  adapter_id = "qa-playwright-worker-adapter";
}

abbrev api_contract_test : CapabilityDefinition
api_contract_test = record {
  id = "qa.api.contract.test";
  system = "api";
  action = "contract.test";
  description =
      "Run allowlisted read-only API contract checks (status, latency, and JSON field presence) against approved non-production endpoints.";
  risk_level = RiskLevel.l1;
  approval_mode = ApprovalMode.standing_policy;
  action_class = ActionClass.test;
  external_write = false;
  production_mutation = false;
  allowed_environments = EnvironmentName.playground ∷ EnvironmentName.qa ∷ [];
  adapter_id = "qa-api-contract-adapter";
}

abbrev jira_bug_create : CapabilityDefinition
jira_bug_create = record {
  id = "qa.jira.bug.create";
  system = "jira";
  action = "bug.create";
  description =
      "Create a Jira bug from the exact immutable bug-draft artifact after payload-bound L3 human approval.";
  risk_level = RiskLevel.l3;
  approval_mode = ApprovalMode.human;
  action_class = ActionClass.external_write;
  external_write = true;
  production_mutation = false;
  allowed_environments =
      EnvironmentName.playground ∷ EnvironmentName.qa ∷ EnvironmentName.prod ∷ [];
  adapter_id = "qa-jira-defect-adapter";
}

abbrev teams_status_post : CapabilityDefinition
teams_status_post = record {
  id = "qa.teams.status.post";
  system = "teams";
  action = "status.post";
  description = "Post a QA status message to an approved Teams channel.";
  risk_level = RiskLevel.l3;
  approval_mode = ApprovalMode.human;
  action_class = ActionClass.external_write;
  external_write = true;
  production_mutation = false;
  allowed_environments =
      EnvironmentName.playground ∷ EnvironmentName.qa ∷ EnvironmentName.prod ∷ [];
  adapter_id = "qa-teams-adapter";
}

abbrev pub qa_capabilities : List CapabilityDefinition
qa_capabilities =
    jira_story_read ∷ jira_duplicate_search ∷ bitbucket_change_impact_read ∷ testplan_generate
    ∷ database_validation_read ∷ integration_trace ∷ playwright_test_run ∷ api_contract_test
    ∷ jira_bug_create ∷ teams_status_post ∷ []
