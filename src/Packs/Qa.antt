-- ===== src/Packs/Qa.antt =====
-- apps/agent-window/src/server/qa/qa-grants.ts, the flags of qa/qa-capabilities.ts and the binding
-- of workflow steps in qa/qa-governance.ts.
use bm_agents_world.Common.{
  String, Bool, true, false, none, some, List, [], ◌∷◌, concat, keep, or_else,
}
use bm_agents_world.Common.Dict.{Dict, get}
use bm_agents_world.Common.ObjectLiteral.{Looked, undefined_value, own_value, inherited_value, look}
use bm_agents_world.Json.{obj, end}
use bm_agents_world.Environment.{Process, boolean_env}
use bm_agents_world.Capability.{CapabilityDefinition}
use bm_agents_world.Capability.Grants.{CapabilityGrantSpec}
use bm_agents_world.Workflow.Compiler.{CompiledWorkflowStep}
use bm_agents_world.Workflow.Steps.{WorkflowRunContext}
use bm_agents_world.Workflow.Runner.{CapabilityStepBinding}
use bm_agents_world.Packs.{PackRuntimeProvider, scope_entries, given, not_null, text_field}
use bm_agents_world.Packs.QaTable.{qa_capabilities}

abbrev pub qa_supervisor_agent_id : String
qa_supervisor_agent_id = "qa"

abbrev pub qa_specialist_capabilities : Dict (List String)
qa_specialist_capabilities =
    ("story-context", "qa.jira.story.read" ∷ [])
    ∷ ("change-impact", "qa.bitbucket.change-impact.read" ∷ [])
    ∷ ("test-design", "qa.testplan.generate" ∷ [])
    ∷ ("browser-qa", "qa.playwright.test.run" ∷ [])
    ∷ ("api-qa", "qa.api.contract.test" ∷ [])
    ∷ ("database-validation", "qa.database.validation.read" ∷ [])
    ∷ ("integration-qa", "qa.integration.trace" ∷ [])
    ∷ ("defect-investigator", "qa.jira.duplicate.search" ∷ "qa.jira.bug.create" ∷ [])
    ∷ ("qa-reporter", "qa.teams.status.post" ∷ [])
    ∷ []

unfoldable pub qa_specialist_agent_id : String → String
unfolding concat
qa_specialist_agent_id id = concat (qa_supervisor_agent_id ∷ "." ∷ id ∷ [])

unfoldable pub qa_grant_spec : CapabilityGrantSpec
unfolding scope_entries qa_specialist_agent_id
qa_grant_spec = record {
  scoped = some (scope_entries qa_specialist_agent_id [] qa_specialist_capabilities);
  unrestricted = some (qa_supervisor_agent_id ∷ []);
  unknown = none;
}

unfoldable pub qa_runtime_provider : PackRuntimeProvider
unfolding qa_specialist_agent_id look
qa_runtime_provider = record {
  pack_id = qa_supervisor_agent_id;
  supervisor_runtime_id = λ id. qa_supervisor_agent_id;
  specialist_runtime_id = qa_specialist_agent_id;
  grants_for = λ id. look id qa_specialist_capabilities;
}

abbrev qa_opt_in_flags : Dict String
qa_opt_in_flags = ("qa.database.validation.read", "QA_DATABASE_VALIDATION_ENABLED") ∷ []

-- `capabilityEnabled`
unfoldable pub qa_capability_enabled : Process → String → Bool
unfolding boolean_env
qa_capability_enabled p id = elim (get id qa_opt_in_flags) [
  | none ↦ true
  | some flag ↦ boolean_env p flag false
]

unfoldable pub available_qa_capabilities : Process → List CapabilityDefinition
unfolding qa_capability_enabled
available_qa_capabilities p = keep (λ d. qa_capability_enabled p d.id) qa_capabilities

abbrev pub qa_skill_capability : Dict String
qa_skill_capability =
    ("qa.story.read-context", "qa.jira.story.read")
    ∷ ("qa.change.frontend-impact", "qa.bitbucket.change-impact.read")
    ∷ ("qa.change.backend-impact", "qa.bitbucket.change-impact.read")
    ∷ ("qa.change.database-impact", "qa.bitbucket.change-impact.read")
    ∷ []

-- `qaWorkflowBinding`; `inherited_value` is a binding to what the table inherits under the name of
-- the skill.
unfoldable pub qa_workflow_binding :
    CompiledWorkflowStep → WorkflowRunContext → Looked CapabilityStepBinding
unfolding text_field look
qa_workflow_binding step c = elim (given step.skill) [
  | none ↦ undefined_value
  | some skill ↦ elim (look skill qa_skill_capability) [
    | undefined_value ↦ undefined_value
    | inherited_value n ↦ inherited_value n
    | own_value capability ↦ own_value (record {
      capability_id = capability;
      payload = some (
          obj (
            text_field "storyId"
              (or_else (not_null "jiraIssueKey" c.inputs) (not_null "storyId" c.inputs)) end));
    })
  ]
]
