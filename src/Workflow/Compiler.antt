-- ===== src/Workflow/Compiler.antt =====
-- `compileWorkflow` of apps/agent-window/src/server/workflow-compiler.ts. The issues that the
-- package zod finds in a document are an input, and so are `localeCompare`, the order of texts by
-- code units and the hash of the compiled form.
pub mod Sound
use bm_agents_world.Common.{
  ℕ, String, Bool, true, false, not, Option, none, some, List, [], ◌∷◌, ◌++◌, map, or_default,
  includes, ◌==◌, if◌then◌else◌, sort_by, concat, join, leb, ltb, ◌&&◌, ◌||◌,
}
use bm_agents_world.Common.Dict.{Dict, get}
use bm_agents_world.Workflow.Schema.{
  WorkflowDocument, NormalizedWorkflowStep, NormalizedWorkflow, normalize_workflow_document,
}
use bm_agents_world.Workflow.Waves.{Plan, compute_waves}

-- `kind` is the field `type` of the source, and `wave` is none where the source has -1.
pub record CompiledWorkflowStep : Type 0 where
  pub id : String
  pub agent : Option String
  pub tool : Option String
  pub skill : Option String
  pub skills : List String
  pub action : Option String
  pub kind : Option String
  pub depends_on : List String
  pub parallel_group : Option String
  pub wave : Option ℕ

pub record CompiledWorkflow : Type 0 where
  pub id : String
  pub steps : List CompiledWorkflowStep
  pub order : List (List String)
  pub diagnostics : List String
  pub ok : Bool
  pub content_hash : String

pub record CompileWorkflowOptions : Type 0 where
  pub known_agents : Option (List String)
  pub strict : Bool

pub data Compilation : Type 0 where
  compiled : CompiledWorkflow → Compilation
  thrown : String → Compilation

-- What the source calls and does not define.
pub record Platform : Type 0 where
  pub locale_le : String → String → Bool
  pub unit_le : String → String → Bool
  pub canonical_hash : String → List CompiledWorkflowStep → List (List String) → String

unfoldable pub duplicates : List String → List NormalizedWorkflowStep → List String
unfolding concat
duplicates seen [] = []
duplicates seen (step ∷ steps) =
    (if includes seen step.id then concat ("duplicate step id: " ∷ step.id ∷ []) ∷ [] else [])
    ++ duplicates (step.id ∷ seen) steps

unfoldable pub unknown_dependencies : List String → String → List String → List String
unfolding concat
unknown_dependencies seen id [] = []
unknown_dependencies seen id (dep ∷ deps) =
    (if includes seen dep
      then []
      else concat ("step \"" ∷ id ∷ "\" depends on unknown step \"" ∷ dep ∷ "\"" ∷ []) ∷ [])
    ++ unknown_dependencies seen id deps

unfoldable pub unknown_agent : Option (List String) → String → Option String → List String
unfolding concat
unknown_agent none id agent = []
unknown_agent (some known) id none = []
unknown_agent (some known) id (some agent) =
    if agent == "" || includes known agent
    then []
    else concat ("step \"" ∷ id ∷ "\" references unknown agent \"" ∷ agent ∷ "\"" ∷ []) ∷ []

unfoldable pub references :
    List String → Option (List String) → List NormalizedWorkflowStep → List String
unfolding unknown_dependencies unknown_agent
references seen known [] = []
references seen known (step ∷ steps) =
    unknown_dependencies seen step.id (or_default step.depends_on [])
    ++ unknown_agent known step.id step.agent
    ++ references seen known steps

unfoldable pub cycle_issue : Platform → Option (List String) → List String
unfolding concat join
cycle_issue platform none = []
cycle_issue platform (some rest) =
    concat (
      "cycle or unresolved dependency among steps: "
      ∷ join ", " (sort_by platform.unit_le rest)
      ∷ [])
    ∷ []

unfoldable pub diagnose :
    Platform → CompileWorkflowOptions → List String → NormalizedWorkflow → Plan → List String
unfolding duplicates references cycle_issue
diagnose platform options issues workflow plan =
    issues
    ++ (if workflow.declares_steps then [] else "workflow declares no steps" ∷ [])
    ++ duplicates [] workflow.steps
    ++ references (map (λ s. s.id) workflow.steps) options.known_agents workflow.steps
    ++ cycle_issue platform plan.stuck

unfoldable pub compile_step : Dict ℕ → NormalizedWorkflowStep → CompiledWorkflowStep
compile_step wave_of step = record {
  id = step.id;
  agent = step.agent;
  tool = step.tool;
  skill = step.skill;
  skills = step.skills;
  action = step.action;
  kind = step.kind;
  depends_on = or_default step.depends_on [];
  parallel_group = step.parallel_group;
  wave = get step.id wave_of;
}

-- `a.wave - b.wave || a.id.localeCompare(b.id)`, where none stands for -1.
unfoldable pub wave_le : (String → String → Bool) → String → Option ℕ → String → Option ℕ → Bool
wave_le le a none b none = le a b
wave_le le a none b (some w) = true
wave_le le a (some v) b none = false
wave_le le a (some v) b (some w) = ltb v w || (leb v w && le a b)

-- The end of `compileWorkflow`, on the plan of the waves.
unfoldable pub assemble :
    Platform → CompileWorkflowOptions → NormalizedWorkflow → Plan → List String → Compilation
unfolding compile_step wave_le concat join
assemble platform options workflow plan diagnostics =
    let steps =
      sort_by (λ a b. wave_le platform.locale_le a.id a.wave b.id b.wave)
        (map (compile_step plan.wave_of) workflow.steps) in
    elim diagnostics [
      | [] ↦ compiled (record {
        id = workflow.id;
        steps = steps;
        order = plan.waves;
        diagnostics = [];
        ok = true;
        content_hash = platform.canonical_hash workflow.id steps plan.waves;
      })
      | d ∷ ds ↦
          if options.strict
          then thrown (
              concat (
                "Workflow \""
                ∷ workflow.id
                ∷ "\" failed to compile:\n  - "
                ∷ join "\n  - " (d ∷ ds)
                ∷ []))
          else compiled (record {
            id = workflow.id;
            steps = steps;
            order = plan.waves;
            diagnostics = d ∷ ds;
            ok = false;
            content_hash = platform.canonical_hash workflow.id steps plan.waves;
          })
    ]

-- `compileWorkflow`, none where the fuel of the loop would run out.
unfoldable pub compile_workflow :
    Platform → CompileWorkflowOptions → List String → WorkflowDocument → Option Compilation
unfolding diagnose assemble
compile_workflow platform options issues document =
    let workflow = normalize_workflow_document document in
    elim (compute_waves platform.locale_le workflow.steps) [
      | none ↦ none
      | some plan ↦
          some (
            assemble platform options workflow plan
              (diagnose platform options issues workflow plan))
    ]
