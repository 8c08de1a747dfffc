-- ===== src/Tests/Workflow.antt =====
-- A document of two steps, one of which depends on the other.
use bm_agents_world.Common.{
  ℕ, ◌<◌, String, true, false, ◌≡◌, refl, sym, ap, Option, none, some, List, [], ◌∷◌, All, includes,
  sort_by, arith, ◌==◌, eq_iff, if◌then◌else◌,
}
use bm_agents_world.Common.Dict.{get, set}
use bm_agents_world.Workflow.Schema.{
  WorkflowStep, WorkflowDocument, NormalizedWorkflowStep, normalize_workflow_document,
}
use bm_agents_world.Workflow.Waves.{Plan, compute_waves, deps_of}
use bm_agents_world.Workflow.Waves.Order.{Placed, dependencies}
use bm_agents_world.Workflow.Waves.Complete.{step_ids, compute_waves_acyclic}
use bm_agents_world.Workflow.Compiler.{
  Platform, CompileWorkflowOptions, CompiledWorkflow, Compilation, compiled, thrown,
  compile_workflow,
}
use bm_agents_world.Workflow.Compiler.Sound.{RunsAfter, compile_workflow_ok}

abbrev plain : String → List String → WorkflowStep
plain id deps = record {
  id = id;
  agent = none;
  tool = none;
  skill = some "write";
  uses = none;
  kind = none;
  action = none;
  depends_on = some deps;
  parallel_group = none;
  idempotent = none;
}

abbrev document : WorkflowDocument
document = record {
  metadata_id = some "release";
  metadata_name = none;
  steps = some (plain "test" ("build" ∷ []) ∷ plain "build" [] ∷ []);
  spec_steps = none;
}

abbrev platform : Platform
platform = record {
  locale_le = λ a b. a == b;
  unit_le = λ a b. a == b;
  canonical_hash = λ id steps order. "hash";
}

abbrev no_issues : List String
no_issues = []

abbrev lenient : CompileWorkflowOptions
lenient = record { known_agents = none; strict = false }

abbrev steps : List NormalizedWorkflowStep
steps = (normalize_workflow_document document).steps

abbrev nothing_compiled : CompiledWorkflow
nothing_compiled = record {
  id = "";
  steps = [];
  order = [];
  diagnostics = [];
  ok = false;
  content_hash = "";
}

abbrev from_compilation : Option Compilation → CompiledWorkflow
from_compilation none = nothing_compiled
from_compilation (some (compiled c)) = c
from_compilation (some (thrown e)) = nothing_compiled

abbrev release : CompiledWorkflow
release = from_compilation (compile_workflow platform lenient no_issues document)

compile_workflow_ok_example :
    (no_issues ≡ [])
    × ((normalize_workflow_document document).declares_steps ≡ true)
    × All (RunsAfter release.order) steps
unfolding compile_workflow normalize_workflow_document compute_waves get set sort_by
compile_workflow_ok_example =
    compile_workflow_ok platform lenient no_issues document release refl refl

-- The test comes after the build.
abbrev rank : String → ℕ
rank id = if "build" == id then 0 else 1

test_is_no_build : (id : String) → ("test" == id) ≡ true → ("build" == id) ≡ false
test_is_no_build id e = ap (λ x. "build" == x) (sym ((eq_iff "test" id).0 e))

compute_waves_acyclic_example :
    (plan : Plan) × (compute_waves platform.locale_le steps ≡ some plan)
    × (plan.stuck ≡ none)
    × ((id : String)
        → includes (step_ids steps) id ≡ true
        → (w : ℕ) × Placed (deps_of (step_ids steps) steps []) plan.wave_of plan.waves id w)
unfolding deps_of normalize_workflow_document get set
compute_waves_acyclic_example = compute_waves_acyclic platform.locale_le steps rank falls
  where
    falls :
        (id dep : String)
        → includes (dependencies (deps_of (step_ids steps) steps []) id) dep ≡ true
        → rank dep < rank id
    falls id dep h = ground (arith, test_is_no_build id)
