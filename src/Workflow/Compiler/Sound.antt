-- ===== src/Workflow/Compiler/Sound.antt =====
-- What a compiled workflow that is `ok` promises of its document.
use bm_agents_world.Common.{
  ℕ, ◌<◌, String, true, ◌≡◌, refl, ◌∙◌, ap, subst, Option, none, some, List, [], ◌∷◌, ◌++◌,
  or_default, includes, eq_iff, eq_refl, if◌then◌else◌, All, keep, arith,
}
use bm_agents_world.Common.Dict.{Dict, get, set, get-set, get-set_self}
use bm_agents_world.Workflow.Schema.{
  WorkflowDocument, NormalizedWorkflowStep, NormalizedWorkflow, normalize_workflow_document,
}
use bm_agents_world.Workflow.Waves.{Plan, deps_of}
use bm_agents_world.Workflow.Waves.Lists.{includes-keep}
use bm_agents_world.Workflow.Waves.Order.{Placed, wave_at, dependencies}
use bm_agents_world.Workflow.Waves.Complete.{step_ids, Laid, compute_waves-Laid}
use bm_agents_world.Workflow.Compiler.{
  CompiledWorkflow, CompileWorkflowOptions, compiled, Platform, duplicates, references, cycle_issue,
  diagnose, assemble, compile_workflow, unknown_dependencies, unknown_agent,
}

append_empty : (xs ys : List String) → xs ++ ys ≡ [] → (xs ≡ []) × (ys ≡ [])
append_empty [] ys e = (refl, e)
append_empty (x ∷ xs) ys e = cc

-- Without a duplicate, an id that was seen does not come again.
untouched :
    (ids seen : List String) (steps : List NormalizedWorkflowStep) (m : Dict (List String))
    (k : String)
    → duplicates seen steps ≡ []
    → includes seen k ≡ true
    → get k (deps_of ids steps m) ≡ get k m
unfolding duplicates deps_of
untouched ids seen [] m k none_twice h = refl
untouched ids seen (step ∷ steps) m k none_twice h =
    let own = keep (includes ids) (or_default step.depends_on []) in
    let (fresh, rest) = append_empty _ (duplicates (step.id ∷ seen) steps) none_twice in
    untouched ids (step.id ∷ seen) steps (set step.id own m) k rest (ground arith)
    ∙ get-set step.id k own m
    ∙ ground (arith, eq_iff step.id k)

-- The dependencies of each step are those that it names, where they are steps.
own_dependencies :
    (ids seen : List String) (steps : List NormalizedWorkflowStep) (m : Dict (List String))
    → duplicates seen steps ≡ []
    → All
        (λ s.
          get s.id (deps_of ids steps m) ≡ some (keep (includes ids) (or_default s.depends_on [])))
        steps
unfolding duplicates deps_of
own_dependencies ids seen [] m e = _
own_dependencies ids seen (step ∷ steps) m e =
    let own = keep (includes ids) (or_default step.depends_on []) in
    let (fresh, rest) = append_empty _ (duplicates (step.id ∷ seen) steps) e in
    (
      untouched ids (step.id ∷ seen) steps (set step.id own m) step.id rest
            (ground (arith, eq_refl step.id))
          ∙ get-set_self step.id own m,
      own_dependencies ids (step.id ∷ seen) steps (set step.id own m) rest,
    )

known_dependencies :
    (seen : List String) (id : String) (deps : List String)
    → unknown_dependencies seen id deps ≡ []
    → All (λ dep. includes seen dep ≡ true) deps
unfolding unknown_dependencies
known_dependencies seen id [] e = _
known_dependencies seen id (dep ∷ deps) e =
    let (here_too, rest) = append_empty _ (unknown_dependencies seen id deps) e in
    (ground arith, known_dependencies seen id deps rest)

known_references :
    (seen : List String) (known : Option (List String)) (steps : List NormalizedWorkflowStep)
    → references seen known steps ≡ []
    → All (λ s. All (λ dep. includes seen dep ≡ true) (or_default s.depends_on [])) steps
unfolding references
known_references seen known [] e = _
known_references seen known (step ∷ steps) e =
    let deps = or_default step.depends_on [] in
    let (more, rest) = append_empty _ (references seen known steps) e in
    let (first, second) =
      append_empty (unknown_dependencies seen step.id deps) (unknown_agent known step.id step.agent)
        more in
    (known_dependencies seen step.id deps first, known_references seen known steps rest)

-- A step stands in a wave, and all that it depends on in earlier waves.
abbrev pub RunsAfter : List (List String) → NormalizedWorkflowStep → Type 0
RunsAfter order step =
    (w : ℕ) × (includes (wave_at w order) step.id ≡ true)
    × All (λ dep. (v : ℕ) × (v < w) × (includes (wave_at v order) dep ≡ true))
        (or_default step.depends_on [])

-- Its dependencies one by one.
all_earlier :
    (deps : Dict (List String)) (ids : List String) (plan : Plan) (id : String) (w : ℕ)
    → Laid deps ids plan
    → Placed deps plan.wave_of plan.waves id w
    → (more : List String)
    → ((dep : String)
        → includes more dep ≡ true
        → includes ids dep ≡ true
        → includes (dependencies deps id) dep ≡ true)
    → All (λ dep. includes ids dep ≡ true) more
    → All (λ dep. (v : ℕ) × (v < w) × (includes (wave_at v plan.waves) dep ≡ true)) more
all_earlier deps ids plan id w laid p [] own known = _
all_earlier deps ids plan id w laid p (dep ∷ more) own (is_known, known) =
    let (v, found, lt) = p.later dep (own dep (ground (arith, eq_refl dep)) is_known) in
    (
      (v, lt, (laid.placed dep v found).listed),
      all_earlier deps ids plan id w laid p more (λ d h k. own d (ground arith) k) known,
    )

all_run_after :
    (deps : Dict (List String)) (ids : List String) (plan : Plan)
    → Laid deps ids plan
    → plan.stuck ≡ none
    → (steps : List NormalizedWorkflowStep) → All (λ s. includes ids s.id ≡ true) steps
    → All (λ s. get s.id deps ≡ some (keep (includes ids) (or_default s.depends_on []))) steps
    → All (λ s. All (λ dep. includes ids dep ≡ true) (or_default s.depends_on [])) steps
    → All (RunsAfter plan.waves) steps
all_run_after deps ids plan laid free [] inside own known = _
all_run_after deps ids plan laid free (step ∷ steps) (i, inside) (o, own) (k, known) =
    let (w, e) = laid.finished free step.id i in
    let p = laid.placed step.id w e in
    (
      (
        w,
        p.listed,
        all_earlier deps ids plan step.id w laid p (or_default step.depends_on [])
            (λ dep h in_graph.
              ap (λ x. includes (or_default x []) dep) o
              ∙ includes-keep (includes ids) (or_default step.depends_on []) dep
              ∙ ground arith)
            k,
      ),
      all_run_after deps ids plan laid free steps inside own known,
    )

includes_there : (pre post : List String) (k : String) → includes (pre ++ k ∷ post) k ≡ true
includes_there [] post k = ground (arith, eq_refl k)
includes_there (y ∷ pre) post k = ground (arith, includes_there pre post k)

shift : (pre post : List String) (k : String) → (pre ++ k ∷ []) ++ post ≡ pre ++ k ∷ post
shift [] post k = refl
shift (y ∷ pre) post k = ap (λ xs. y ∷ xs) (shift pre post k)

inside_ids :
    (pre : List String) (steps : List NormalizedWorkflowStep)
    → All (λ s. includes (pre ++ step_ids steps) s.id ≡ true) steps
inside_ids pre [] = _
inside_ids pre (step ∷ steps) = (
  includes_there pre (step_ids steps) step.id,
  subst (λ ids. All (λ s. includes ids s.id ≡ true) steps) (shift pre (step_ids steps) step.id)
      (inside_ids (pre ++ step.id ∷ []) steps),
)

assemble_ok :
    (platform : Platform) (options : CompileWorkflowOptions) (workflow : NormalizedWorkflow)
    (plan : Plan) (diagnostics : List String) (c : CompiledWorkflow)
    → assemble platform options workflow plan diagnostics ≡ compiled c
    → c.ok ≡ true
    → (diagnostics ≡ []) × (plan.waves ≡ c.order)
unfolding assemble
assemble_ok platform options workflow plan [] c e ok = (refl, ground arith)
assemble_ok platform options workflow plan (d ∷ ds) c e ok = absurd (ground arith)

cycle_free :
    (platform : Platform) (stuck : Option (List String))
    → cycle_issue platform stuck ≡ []
    → stuck ≡ none
unfolding cycle_issue
cycle_free platform none e = refl
cycle_free platform (some rest) e = cc

-- If a document compiles to a workflow that is `ok`, whatever the options: the schema had no issues,
-- the document declares its steps, and each of its steps is listed in a wave of the compiled order,
-- with every dependency that it names listed in an earlier wave.
pub compile_workflow_ok :
    (platform : Platform) (options : CompileWorkflowOptions) (issues : List String)
    (document : WorkflowDocument) (c : CompiledWorkflow)
    → compile_workflow platform options issues document ≡ some (compiled c)
    → c.ok ≡ true
    → (issues ≡ [])
      × ((normalize_workflow_document document).declares_steps ≡ true)
      × All (RunsAfter c.order) (normalize_workflow_document document).steps
unfolding compile_workflow diagnose
compile_workflow_ok platform options issues document c e ok =
    let workflow = normalize_workflow_document document in
    let ids = step_ids workflow.steps in
    let deps = deps_of ids workflow.steps [] in
    let (plan, found, laid) = compute_waves-Laid platform.locale_le workflow.steps in
    let diagnostics = diagnose platform options issues workflow plan in
    let made : assemble platform options workflow plan diagnostics ≡ compiled c =
      ground (arith, found) in
    let (clean, same) = assemble_ok platform options workflow plan diagnostics c made ok in
    let (e1, no_cycle) = append_empty _ (cycle_issue platform plan.stuck) clean in
    let (e2, known) = append_empty _ (references ids options.known_agents workflow.steps) e1 in
    let (e3, once) = append_empty _ (duplicates [] workflow.steps) e2 in
    let (no_issues, declared) =
      append_empty issues
        (if workflow.declares_steps then [] else "workflow declares no steps" ∷ []) e3 in
    (
      no_issues,
      ground arith,
      subst (λ o. All (RunsAfter o) workflow.steps) same
          (all_run_after deps ids plan laid (cycle_free platform plan.stuck no_cycle) workflow.steps
            (inside_ids [] workflow.steps) (own_dependencies ids [] workflow.steps [] once)
            (known_references ids options.known_agents workflow.steps known)),
    )
