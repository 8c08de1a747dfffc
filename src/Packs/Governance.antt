-- ===== src/Packs/Governance.antt =====
-- apps/agent-window/src/server/pack-governance.ts: the governed packs. The prompts, the tools and
-- the adapters of a pack are not part of the record here.
use bm_agents_world.Common.{String, List, [], ◌∷◌}
use bm_agents_world.Common.Dict.{Dict}
use bm_agents_world.Common.ObjectLiteral.{Looked, look}
use bm_agents_world.Environment.{Process}
use bm_agents_world.Capability.{CapabilityDefinition}
use bm_agents_world.Capability.Grants.{CapabilityGrantSpec}
use bm_agents_world.Workflow.Compiler.{CompiledWorkflowStep}
use bm_agents_world.Workflow.Steps.{WorkflowRunContext}
use bm_agents_world.Workflow.Runner.{CapabilityStepBinding}
use bm_agents_world.Packs.{PackRuntimeProvider}
use bm_agents_world.Packs.Qa.{
  qa_runtime_provider, available_qa_capabilities, qa_grant_spec, qa_workflow_binding,
}
use bm_agents_world.Packs.Frontend.{
  frontend_runtime_provider, available_frontend_capabilities, frontend_grant_spec,
  frontend_workflow_binding,
}

pub record PackGovernance : Type 0 where
  pub runtime_provider : PackRuntimeProvider
  pub capabilities : Process → List CapabilityDefinition
  pub grant_spec : CapabilityGrantSpec
  pub resolve_workflow_binding :
      CompiledWorkflowStep → WorkflowRunContext → Looked CapabilityStepBinding

-- `qaGovernance` and `frontendGovernance`
abbrev pub qa_governance : PackGovernance
qa_governance = record {
  runtime_provider = qa_runtime_provider;
  capabilities = available_qa_capabilities;
  grant_spec = qa_grant_spec;
  resolve_workflow_binding = qa_workflow_binding;
}

abbrev pub frontend_governance : PackGovernance
frontend_governance = record {
  runtime_provider = frontend_runtime_provider;
  capabilities = available_frontend_capabilities;
  grant_spec = frontend_grant_spec;
  resolve_workflow_binding = frontend_workflow_binding;
}

-- `PACK_GOVERNANCE`
abbrev pub pack_governance : Dict PackGovernance
pack_governance = ("qa", qa_governance) ∷ ("frontend-angular", frontend_governance) ∷ []

-- `resolvePackGovernance`
unfoldable pub resolve_pack_governance : String → Looked PackGovernance
unfolding look
resolve_pack_governance pack = look pack pack_governance
