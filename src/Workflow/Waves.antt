-- ===== src/Workflow/Waves.antt =====
-- `computeWaves` of apps/agent-window/src/server/workflow-compiler.ts: the waves in which the
-- steps of a graph can run. The `while` loop takes fuel; one more than the number of steps is
-- enough. `le a b` stands for `a.localeCompare(b) <= 0`.
pub mod Lists
pub mod Order
pub mod Complete
use bm_agents_world.Common.{
  ℕ, suc, String, Bool, true, false, not, Option, none, some, List, [], ◌∷◌, ◌++◌, map, or_default,
  all, keep, includes, length, sort_by, zero,
}
use bm_agents_world.Common.Dict.{Dict, get, set, has}
use bm_agents_world.Workflow.Schema.{NormalizedWorkflowStep}

-- `stuck` are the steps that are left when none is ready, which the source reports as a cycle.
pub record Plan : Type 0 where
  pub waves : List (List String)
  pub wave_of : Dict ℕ
  pub stuck : Option (List String)

-- Only the dependencies that are steps of the graph count.
unfoldable pub deps_of :
    List String → List NormalizedWorkflowStep → Dict (List String) → Dict (List String)
deps_of ids [] deps = deps
deps_of ids (step ∷ steps) deps =
    deps_of ids steps (set step.id (keep (includes ids) (or_default step.depends_on [])) deps)

-- `for (const id of ready) waveOf.set(id, wave)`
unfoldable pub mark : List String → ℕ → Dict ℕ → Dict ℕ
mark [] wave wave_of = wave_of
mark (id ∷ ids) wave wave_of = mark ids wave (set id wave wave_of)

abbrev pub is_ready : Dict (List String) → Dict ℕ → String → Bool
is_ready deps wave_of id = all (λ dep. has dep wave_of) (or_default (get id deps) [])

module _ (le : String → String → Bool) where
  -- One round of the loop, for what is ready of the steps that remain.
  unfoldable pub loop :
      ℕ → Dict (List String) → List String → Dict ℕ → List (List String) → Option Plan
  unfolding mark
  loop zero deps remaining wave_of waves = none
  loop (suc fuel) deps [] wave_of waves =
      some (record { waves = waves; wave_of = wave_of; stuck = none })
  loop (suc fuel) deps (r ∷ rs) wave_of waves =
      elim (sort_by le (keep (is_ready deps wave_of) (r ∷ rs))) [
        | [] ↦ some (record { waves = waves; wave_of = wave_of; stuck = some (r ∷ rs) })
        | id ∷ ids ↦
            let marked = mark (id ∷ ids) (length waves) wave_of in
            loop fuel deps (keep (λ x. not (has x marked)) (r ∷ rs)) marked
              (waves ++ (id ∷ ids) ∷ [])
      ]

  unfoldable pub compute_waves : List NormalizedWorkflowStep → Option Plan
  unfolding deps_of loop
  compute_waves steps =
      let ids = map (λ s. s.id) steps in loop (suc (length ids)) (deps_of ids steps []) ids [] []
