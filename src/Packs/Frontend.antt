-- ===== src/Packs/Frontend.antt =====
-- apps/agent-window/src/server/frontend/frontend-grants.ts, the flags of
-- frontend/frontend-capabilities.ts and the binding of workflow steps in
-- frontend/frontend-governance.ts.
use bm_agents_world.Common.{
  String, Bool, true, false, Option, none, some, List, [], ◌∷◌, concat, keep, or_else,
  if◌then◌else◌, ◌==◌,
}
use bm_agents_world.Common.Dict.{Dict, get}
use bm_agents_world.Common.ObjectLiteral.{Looked, undefined_value, own_value, inherited_value, look}
use bm_agents_world.Json.{Json, Fields, obj, end}
use bm_agents_world.Environment.{Process, boolean_env}
use bm_agents_world.Capability.{CapabilityDefinition}
use bm_agents_world.Capability.Grants.{CapabilityGrantSpec}
use bm_agents_world.Workflow.Compiler.{CompiledWorkflowStep}
use bm_agents_world.Workflow.Steps.{WorkflowRunContext}
use bm_agents_world.Workflow.Runner.{CapabilityStepBinding}
use bm_agents_world.Packs.{PackRuntimeProvider, scope_entries, given, not_null, text_field}
use bm_agents_world.Packs.FrontendTable.{frontend_capabilities}

abbrev pub frontend_supervisor_agent_id : String
frontend_supervisor_agent_id = "frontend-angular"

abbrev pub frontend_specialist_capabilities : Dict (List String)
frontend_specialist_capabilities =
    ("story-context", "frontend.jira.story.read" ∷ [])
    ∷ ("repository-context", "frontend.repository.context.read" ∷ [])
    ∷ ("architecture-analyzer", "frontend.plan.generate" ∷ [])
    ∷ ("design-system", "frontend.design.tokens.read" ∷ [])
    ∷ ("build-pipeline", "frontend.quality.gates.run" ∷ [])
    ∷ ("pr-release", "frontend.bitbucket.pullrequest.create" ∷ "frontend.jira.comment.post" ∷ [])
    ∷ []

unfoldable pub frontend_specialist_agent_id : String → String
unfolding concat
frontend_specialist_agent_id id = concat (frontend_supervisor_agent_id ∷ "." ∷ id ∷ [])

unfoldable pub frontend_grant_spec : CapabilityGrantSpec
unfolding scope_entries frontend_specialist_agent_id
frontend_grant_spec = record {
  scoped = some (scope_entries frontend_specialist_agent_id [] frontend_specialist_capabilities);
  unrestricted = some (frontend_supervisor_agent_id ∷ []);
  unknown = none;
}

unfoldable pub frontend_runtime_provider : PackRuntimeProvider
unfolding frontend_specialist_agent_id look
frontend_runtime_provider = record {
  pack_id = frontend_supervisor_agent_id;
  supervisor_runtime_id = λ id. frontend_supervisor_agent_id;
  specialist_runtime_id = frontend_specialist_agent_id;
  grants_for = λ id. look id frontend_specialist_capabilities;
}

abbrev frontend_opt_in_flags : Dict String
frontend_opt_in_flags = ("frontend.quality.gates.run", "FRONTEND_QUALITY_GATES_ENABLED") ∷ []

-- `capabilityEnabled`
unfoldable pub frontend_capability_enabled : Process → String → Bool
unfolding boolean_env
frontend_capability_enabled p id = elim (get id frontend_opt_in_flags) [
  | none ↦ true
  | some flag ↦ boolean_env p flag false
]

unfoldable pub available_frontend_capabilities : Process → List CapabilityDefinition
unfolding frontend_capability_enabled
available_frontend_capabilities p =
    keep (λ d. frontend_capability_enabled p d.id) frontend_capabilities

abbrev pub frontend_skill_capability : Dict String
frontend_skill_capability =
    ("frontend.story.read-context", "frontend.jira.story.read")
    ∷ ("frontend.repo.map-workspace", "frontend.repository.context.read")
    ∷ ("frontend.repo.detect-conventions", "frontend.repository.context.read")
    ∷ ("frontend.repo.detect-protected-paths", "frontend.repository.context.read")
    ∷ ("frontend.design.tokens", "frontend.design.tokens.read")
    ∷ ("frontend.design.component-reuse", "frontend.design.tokens.read")
    ∷ []

abbrev pub frontend_action_capability : Dict String
frontend_action_capability =
    ("bitbucket.pullrequest.create", "frontend.bitbucket.pullrequest.create")
    ∷ ("jira.write", "frontend.jira.comment.post")
    ∷ []

-- `step.skills.map(…).find(Boolean)`
unfoldable pub first_mapped : List String → Looked String
unfolding look
first_mapped [] = undefined_value
first_mapped (skill ∷ skills) =
    let rest = first_mapped skills in
    elim (look skill frontend_skill_capability) [
      | undefined_value ↦ rest
      | inherited_value n ↦ inherited_value n
      | own_value capability ↦ own_value capability
    ]

unfoldable pub frontend_capability_of : CompiledWorkflowStep → Looked String
unfolding first_mapped look
frontend_capability_of step = elim (given step.action) [
  | some action ↦ look action frontend_action_capability
  | none ↦ first_mapped step.skills
]

-- A field of the payload of one capability.
abbrev pub field_for : String → String → String → Option Json → Fields → Fields
field_for capability wanted name inputs fields =
    if capability == wanted then text_field name (not_null name inputs) fields else fields

-- `frontendWorkflowBinding`; `inherited_value` is a binding to what a table inherits under the name
-- of the action or a skill.
unfoldable pub frontend_workflow_binding :
    CompiledWorkflowStep → WorkflowRunContext → Looked CapabilityStepBinding
unfolding text_field frontend_capability_of
frontend_workflow_binding step c = elim (frontend_capability_of step) [
  | undefined_value ↦ undefined_value
  | inherited_value n ↦ inherited_value n
  | own_value capability ↦ own_value (record {
    capability_id = capability;
    payload = some (
        obj (
          text_field "storyId"
            (or_else (not_null "jiraIssueKey" c.inputs) (not_null "storyId" c.inputs))
            (field_for capability "frontend.design.tokens.read" "designFileId" c.inputs (
              field_for capability "frontend.bitbucket.pullrequest.create"
                "pullRequestDraftArtifactId" c.inputs
                (field_for capability "frontend.jira.comment.post" "commentDraftArtifactId" c.inputs
                  end)))));
  })
]
