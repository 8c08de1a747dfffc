-- ===== src/Packs/FrontendTable.antt =====
-- The table `FRONTEND_CAPABILITIES` of
-- apps/agent-window/src/server/frontend/frontend-capabilities.ts.
use bm_agents_world.Common.{true, false, List, [], ◌∷◌}
use bm_agents_world.Capability.{
  CapabilityDefinition, RiskLevel, ApprovalMode, ActionClass, EnvironmentName,
}

abbrev jira_story_read : CapabilityDefinition
jira_story_read = record {
  id = "frontend.jira.story.read";
  system = "jira";
  action = "story.read";
  description =
      "Read a scoped Jira story, acceptance criteria, and linked UX notes for a frontend change.";
  risk_level = RiskLevel.l0;
  approval_mode = ApprovalMode.none;
  action_class = ActionClass.read;
  external_write = false;
  production_mutation = false;
  allowed_environments =
      EnvironmentName.playground ∷ EnvironmentName.qa ∷ EnvironmentName.prod ∷ [];
  adapter_id = "frontend-mock-adapter";
}

abbrev repository_context_read : CapabilityDefinition
repository_context_read = record {
  id = "frontend.repository.context.read";
  system = "bitbucket";
  action = "repository.context.read";
  description =
      "Read authorized repository metadata for the workspace map: projects, build commands, conventions, and protected paths.";
  risk_level = RiskLevel.l0;
  approval_mode = ApprovalMode.none;
  action_class = ActionClass.read;
  external_write = false;
  production_mutation = false;
  allowed_environments =
      EnvironmentName.playground ∷ EnvironmentName.qa ∷ EnvironmentName.prod ∷ [];
  adapter_id = "frontend-mock-adapter";
}

abbrev design_tokens_read : CapabilityDefinition
design_tokens_read = record {
  id = "frontend.design.tokens.read";
  system = "design";
  action = "tokens.read";
  description =
      "Read approved design-system tokens and component metadata for an allowlisted design file. Returns tokens and component names only, never file exports or credentials.";
  risk_level = RiskLevel.l0;
  approval_mode = ApprovalMode.none;
  action_class = ActionClass.read;
  external_write = false;
  production_mutation = false;
  allowed_environments =
      EnvironmentName.playground ∷ EnvironmentName.qa ∷ EnvironmentName.prod ∷ [];
  adapter_id = "frontend-mock-adapter";
}

abbrev plan_generate : CapabilityDefinition
plan_generate = record {
  id = "frontend.plan.generate";
  system = "frontend";
  action = "plan.generate";
  description =
      "Persist an immutable, story-scoped implementation plan artifact (change boundary, affected components, rollout and rollback steps) derived from the story and repository reads.";
  risk_level = RiskLevel.l0;
  approval_mode = ApprovalMode.none;
  action_class = ActionClass.read;
  external_write = false;
  production_mutation = false;
  allowed_environments =
      EnvironmentName.playground ∷ EnvironmentName.qa ∷ EnvironmentName.prod ∷ [];
  adapter_id = "frontend-plan-adapter";
}

abbrev quality_gates_run : CapabilityDefinition
quality_gates_run = record {
  id = "frontend.quality.gates.run";
  system = "frontend";
  action = "quality.gates.run";
  description =
      "Run the project's registered quality gates (format, lint, typecheck, unit tests, build) and return their aggregated results. Only named, pre-registered commands run; the model never supplies a command line.";
  risk_level = RiskLevel.l1;
  approval_mode = ApprovalMode.standing_policy;
  action_class = ActionClass.test;
  external_write = false;
  production_mutation = false;
  allowed_environments = EnvironmentName.playground ∷ EnvironmentName.qa ∷ [];
  adapter_id = "frontend-mock-adapter";
}

abbrev bitbucket_pullrequest_create : CapabilityDefinition
bitbucket_pullrequest_create = record {
  id = "frontend.bitbucket.pullrequest.create";
  system = "bitbucket";
  action = "pullrequest.create";
  description =
      "Create a pull request from an approved, already-pushed branch using the exact immutable pull-request-draft artifact. The agent can neither approve nor merge the pull request.";
  risk_level = RiskLevel.l3;
  approval_mode = ApprovalMode.human;
  action_class = ActionClass.external_write;
  external_write = true;
  production_mutation = false;
  allowed_environments = EnvironmentName.playground ∷ EnvironmentName.qa ∷ [];
  adapter_id = "frontend-mock-adapter";
}

abbrev pub jira_comment_post : CapabilityDefinition
jira_comment_post = record {
  id = "frontend.jira.comment.post";
  system = "jira";
  action = "comment.post";
  description =
      "Post an implementation-status comment to the scoped Jira story from the exact approved draft artifact.";
  risk_level = RiskLevel.l3;
  approval_mode = ApprovalMode.human;
  action_class = ActionClass.external_write;
  external_write = true;
  production_mutation = false;
  allowed_environments = EnvironmentName.playground ∷ EnvironmentName.qa ∷ [];
  adapter_id = "frontend-mock-adapter";
}

abbrev pub frontend_capabilities : List CapabilityDefinition
frontend_capabilities =
    jira_story_read ∷ repository_context_read ∷ design_tokens_read ∷ plan_generate
    ∷ quality_gates_run ∷ bitbucket_pullrequest_create ∷ jira_comment_post ∷ []
