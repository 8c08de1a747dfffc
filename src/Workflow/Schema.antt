-- ===== src/Workflow/Schema.antt =====
-- apps/agent-window/src/server/workflow-schema.ts, without the checks of the package zod, whose
-- issues are an input of the compiler. A document is what the YAML package returns, by the fields
-- that the program reads.
use bm_agents_world.Common.{
  String, Bool, Option, none, some, List, [], ◌∷◌, ◌++◌, map, or_default, or_else, is_some,
  includes, if◌then◌else◌, ◌==◌, keep, not,
}

pub record WorkflowStep : Type 0 where
  pub id : String
  pub agent : Option String
  pub tool : Option String
  pub skill : Option String
  pub uses : Option (List String)
  pub kind : Option String
  pub action : Option String
  pub depends_on : Option (List String)
  pub parallel_group : Option String
  pub idempotent : Option Bool

-- `steps` and `spec.steps` are none where they are absent or no array.
pub record WorkflowDocument : Type 0 where
  pub metadata_id : Option String
  pub metadata_name : Option String
  pub steps : Option (List WorkflowStep)
  pub spec_steps : Option (List WorkflowStep)

-- `kind` is the field `type` of the source.
pub record NormalizedWorkflowStep : Type 0 where
  pub id : String
  pub agent : Option String
  pub tool : Option String
  pub skill : Option String
  pub skills : List String
  pub kind : Option String
  pub action : Option String
  pub depends_on : Option (List String)
  pub parallel_group : Option String
  pub idempotent : Option Bool

pub record NormalizedWorkflow : Type 0 where
  pub id : String
  pub steps : List NormalizedWorkflowStep
  pub declares_steps : Bool

abbrev one : Option String → List String
one none = []
one (some s) = s ∷ []

abbrev first : List String → Option String
first [] = none
first (s ∷ ss) = some s

-- `[...new Set(skills)]`
unfoldable pub distinct : List String → List String → List String
distinct seen [] = seen
distinct seen (s ∷ ss) = distinct (if includes seen s then seen else seen ++ s ∷ []) ss

-- The skills of a step that are not empty, `skill` first.
unfoldable pub named_skills : WorkflowStep → List String
named_skills step = keep (λ s. not (s == "")) (one step.skill ++ or_default step.uses [])

unfoldable pub normalize_step : WorkflowStep → NormalizedWorkflowStep
unfolding distinct named_skills
normalize_step step =
    let skills = named_skills step in
    record {
      id = step.id;
      agent = step.agent;
      tool = step.tool;
      skill = first skills;
      skills = distinct [] skills;
      kind = step.kind;
      action = step.action;
      depends_on = step.depends_on;
      parallel_group = step.parallel_group;
      idempotent = step.idempotent;
    }

-- The steps at the root, and else those under `spec`.
unfoldable pub raw_steps : WorkflowDocument → Option (List WorkflowStep)
raw_steps document = or_else document.steps document.spec_steps

-- `normalizeWorkflowDocument`
unfoldable pub normalize_workflow_document : WorkflowDocument → NormalizedWorkflow
unfolding raw_steps normalize_step
normalize_workflow_document document = record {
  id = or_default (or_else document.metadata_id document.metadata_name) "workflow";
  steps = map normalize_step (or_default (raw_steps document) []);
  declares_steps = is_some (raw_steps document);
}
