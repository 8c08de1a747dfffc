-- ===== src/Workflow/Waves/Complete.antt =====
-- The loop of `computeWaves` comes to an end, with a plan that is in order and complete.
use bm_agents_world.Common.{
  ℕ, zero, suc, ◌<◌, String, Bool, true, false, not, ◌≡◌, refl, sym, ◌∙◌, ap, subst, none, some,
  List, [], ◌∷◌, ◌++◌, keep, includes, length, sort_by, ◌&&◌, ◌==◌, eq_refl, arith, Bool-cases, inl,
  inr, or_default, Option-cases, map,
}
use bm_agents_world.Common.Dict.{Dict, get, set, has, get-set}
use bm_agents_world.Workflow.Schema.{NormalizedWorkflowStep}
use bm_agents_world.Workflow.Waves.{Plan, mark, is_ready, loop, compute_waves, deps_of}
use bm_agents_world.Workflow.Waves.Lists.{
  includes-sort_by, includes-keep, get-mark, length-keep-lt, all_fails,
}
use bm_agents_world.Workflow.Waves.Order.{LoopInv, Placed, dependencies, next_inv, wave_at}

-- What a plan holds for the steps `ids`.
pub record Laid (deps : Dict (List String)) (ids : List String) (plan : Plan) : Type 0 where
  pub placed :
      (id : String) (w : ℕ)
      → get id plan.wave_of ≡ some w
      → Placed deps plan.wave_of plan.waves id w
  pub only :
      (id : String) (w : ℕ)
      → includes (wave_at w plan.waves) id ≡ true
      → get id plan.wave_of ≡ some w
  pub finished :
      plan.stuck ≡ none
      → (id : String) → includes ids id ≡ true
      → (w : ℕ) × (get id plan.wave_of ≡ some w)
  pub blocked :
      (rest : List String)
      → plan.stuck ≡ some rest
      → (id : String) → includes rest id ≡ true
      → (dep : String) × (includes (dependencies deps id) dep ≡ true) × (includes rest dep ≡ true)
  pub someone :
      (rest : List String) → plan.stuck ≡ some rest → (id : String) × (includes rest id ≡ true)

module _ (le : String → String → Bool) (deps : Dict (List String)) (ids : List String)
    (closed : (id dep : String)
      → includes (dependencies deps id) dep ≡ true
      → includes ids dep ≡ true) where
  is_done :
      (wave_of : Dict ℕ) (waves : List (List String))
      → LoopInv deps ids [] wave_of waves
      → Laid deps ids (record { waves = waves; wave_of = wave_of; stuck = none })
  is_done wave_of waves inv = record {
    placed = inv.placed;
    only = inv.only;
    finished = λ _ id h. elim (inv.covers id h) [ inl e ↦ absurd (ground arith) | inr w ↦ w ];
    blocked = λ rest e. absurd (ground arith);
    someone = λ rest e. absurd (ground arith);
  }

  -- When no step is ready, each one that remains waits for another that remains.
  waits :
      (remaining : List String) (wave_of : Dict ℕ) (waves : List (List String))
      → LoopInv deps ids remaining wave_of waves
      → ((k : String) → (includes remaining k && is_ready deps wave_of k) ≡ false)
      → (id : String) → includes remaining id ≡ true
      → (dep : String) × (includes (dependencies deps id) dep ≡ true)
        × (includes remaining dep ≡ true)
  waits remaining wave_of waves inv idle id h =
      let (dep, d, fails) =
        all_fails (λ x. has x wave_of) (dependencies deps id) (ground (arith, idle id)) in
      (
        dep,
        d,
        elim (inv.covers dep (closed id dep d)) [ inl r ↦ r | inr (w, e) ↦ absurd (ground arith) ],
      )

  is_stuck :
      (r : String) (rs : List String) (wave_of : Dict ℕ) (waves : List (List String))
      → LoopInv deps ids (r ∷ rs) wave_of waves
      → ((k : String) → (includes (r ∷ rs) k && is_ready deps wave_of k) ≡ false)
      → Laid deps ids (record { waves = waves; wave_of = wave_of; stuck = some (r ∷ rs) })
  is_stuck r rs wave_of waves inv idle = record {
    placed = inv.placed;
    only = inv.only;
    finished = λ e. absurd (ground arith);
    blocked = λ rest e id h.
        let same : r ∷ rs ≡ rest = ground arith in
        subst
          (λ xs.
            (dep : String) × (includes (dependencies deps id) dep ≡ true)
            × (includes xs dep ≡ true))
          same (waits (r ∷ rs) wave_of waves inv idle id (ap (λ xs. includes xs id) same ∙ h));
    someone = λ rest e.
        let same : r ∷ rs ≡ rest = ground arith in
        (r, ap (λ xs. includes xs r) (sym same) ∙ ground (arith, eq_refl r));
  }

  -- One round, given what the rounds after it do.
  round-Laid :
      (fuel : ℕ) (r : String) (rs : List String) (wave_of : Dict ℕ) (waves : List (List String))
      → LoopInv deps ids (r ∷ rs) wave_of waves
      → ((rest : List String) (m : Dict ℕ) (ws : List (List String))
          → length rest < length (r ∷ rs)
          → LoopInv deps ids rest m ws
          → (plan : Plan) × (loop le fuel deps rest m ws ≡ some plan) × Laid deps ids plan)
      → (ready : List String)
      → ((k : String) → includes ready k ≡ (includes (r ∷ rs) k && is_ready deps wave_of k))
      → (plan : Plan) × (elim ready [
        | [] ↦ some (record { waves = waves; wave_of = wave_of; stuck = some (r ∷ rs) })
        | id ∷ more ↦
            let marked = mark (id ∷ more) (length waves) wave_of in
            loop le fuel deps
              (keep (λ x. not (has x marked)) (r ∷ rs))
              marked
              (waves ++ (id ∷ more) ∷ [])
      ]
          ≡ some plan)
        × Laid deps ids plan
  round-Laid fuel r rs wave_of waves inv again [] chosen =
      (_, refl, is_stuck r rs wave_of waves inv λ k. sym (chosen k))
  round-Laid fuel r rs wave_of waves inv again (id ∷ more) chosen =
      let marked = mark (id ∷ more) (length waves) wave_of in
      let now : includes (id ∷ more) id ≡ true = ground (arith, eq_refl id) in
      let goes : not (has id marked) ≡ false =
        ground (arith, get-mark (id ∷ more) (length waves) wave_of id) in
      again (keep (λ x. not (has x marked)) (r ∷ rs)) marked (waves ++ (id ∷ more) ∷ [])
        (length-keep-lt (λ x. not (has x marked)) (r ∷ rs) id (ground (arith, chosen id)) goes)
        (next_inv deps ids (r ∷ rs) (id ∷ more) wave_of waves inv chosen)

  loop-Laid :
      (fuel : ℕ) (remaining : List String) (wave_of : Dict ℕ) (waves : List (List String))
      → length remaining < fuel
      → LoopInv deps ids remaining wave_of waves
      → (plan : Plan) × (loop le fuel deps remaining wave_of waves ≡ some plan) × Laid deps ids plan
  unfolding loop
  loop-Laid zero remaining wave_of waves lt inv = absurd (omega arith)
  loop-Laid (suc fuel) [] wave_of waves lt inv = (_, refl, is_done wave_of waves inv)
  loop-Laid (suc fuel) (r ∷ rs) wave_of waves lt inv =
      round-Laid fuel r rs wave_of waves inv
        (λ rest m ws less i. loop-Laid fuel rest m ws (omega (arith, less, lt)) i)
        (sort_by le (keep (is_ready deps wave_of) (r ∷ rs)))
        λ k.
          includes-sort_by le (keep (is_ready deps wave_of) (r ∷ rs)) k
          ∙ includes-keep (is_ready deps wave_of) (r ∷ rs) k

set-closed :
    (ids more : List String) (k id : String) (deps : Dict (List String)) (d : String)
    → (includes (dependencies deps k) d ≡ true → includes ids d ≡ true)
    → includes (dependencies (set id (keep (includes ids) more) deps) k) d ≡ true
    → includes ids d ≡ true
set-closed ids more k id deps d closed h = elim (Bool-cases (id == k)) [
  | inl e ↦
      let now : get k (set id (keep (includes ids) more) deps) ≡ some (keep (includes ids) more) =
        get-set id k (keep (includes ids) more) deps ∙ rw e in
      let inside : includes (keep (includes ids) more) d ≡ true =
        ap (λ x. includes (or_default x []) d) (sym now) ∙ h in
      ground (arith, includes-keep (includes ids) more d)
  | inr e ↦
      let now : get k (set id (keep (includes ids) more) deps) ≡ get k deps =
        get-set id k (keep (includes ids) more) deps ∙ rw e in
      closed (ap (λ x. includes (or_default x []) d) (sym now) ∙ h)
]

-- The lists of dependencies hold steps of the graph only.
deps_of-includes :
    (ids : List String) (steps : List NormalizedWorkflowStep) (deps : Dict (List String))
    → ((id dep : String) → includes (dependencies deps id) dep ≡ true → includes ids dep ≡ true)
    → (id dep : String) → includes (dependencies (deps_of ids steps deps) id) dep ≡ true
    → includes ids dep ≡ true
unfolding deps_of
deps_of-includes ids [] deps closed id dep h = closed id dep h
deps_of-includes ids (step ∷ steps) deps closed id dep h =
    deps_of-includes ids steps
      (set step.id (keep (includes ids) (or_default step.depends_on [])) deps)
      (λ k d. set-closed ids (or_default step.depends_on []) k step.id deps d (closed k d)) id dep h

-- The ids of the steps, in the order of the document.
abbrev pub step_ids : List NormalizedWorkflowStep → List String
step_ids steps = map (λ s. s.id) steps

start : (deps : Dict (List String)) (ids : List String) → LoopInv deps ids ids [] []
unfolding get
start deps ids = record {
  placed = λ id w e. absurd (ground arith);
  only = λ id w h. absurd (ground arith);
  left = λ id h. refl;
  covers = λ id h. inl h;
}

pub compute_waves-Laid :
    (le : String → String → Bool) (steps : List NormalizedWorkflowStep)
    → (plan : Plan) × (compute_waves le steps ≡ some plan)
      × Laid (deps_of (step_ids steps) steps []) (step_ids steps) plan
unfolding compute_waves get
compute_waves-Laid le steps =
    let ids = step_ids steps in
    loop-Laid le (deps_of ids steps []) ids
      (deps_of-includes ids steps [] λ id dep h. absurd (ground arith)) (suc (length ids)) ids [] []
      (omega arith) (start (deps_of ids steps []) ids)

module _ (deps : Dict (List String)) (rank : String → ℕ)
    (falls : (id dep : String)
      → includes (dependencies deps id) dep ≡ true
      → rank dep < rank id) where
  -- Nobody waits for another for ever.
  no_waiting :
      (rest : List String)
      → ((id : String)
          → includes rest id ≡ true
          → (dep : String) × (includes (dependencies deps id) dep ≡ true)
            × (includes rest dep ≡ true))
      → (n : ℕ) (id : String) → includes rest id ≡ true
      → rank id < n
      → ⊥
  no_waiting rest blocked zero id h lt = absurd (omega arith)
  no_waiting rest blocked (suc n) id h lt =
      let (dep, d, inside) = blocked id h in
      no_waiting rest blocked n dep inside (omega (arith, falls id dep d))

  pub acyclic-finishes : (ids : List String) (plan : Plan) → Laid deps ids plan → plan.stuck ≡ none
  acyclic-finishes ids plan laid = elim (Option-cases plan.stuck) [
    | inl e ↦ e
    | inr (rest, e) ↦
        let (id, h) = laid.someone rest e in
        absurd (no_waiting rest (laid.blocked rest e) (suc (rank id)) id h (omega arith))
  ]

-- Where the dependencies fall along some rank of the steps, so that there is no cycle, no step is
-- reported as stuck, and every step has a wave that comes after those of its dependencies.
pub compute_waves_acyclic :
    (le : String → String → Bool) (steps : List NormalizedWorkflowStep) (rank : String → ℕ)
    → ((id dep : String)
        → includes (dependencies (deps_of (step_ids steps) steps []) id) dep ≡ true
        → rank dep < rank id)
    → (plan : Plan) × (compute_waves le steps ≡ some plan)
      × (plan.stuck ≡ none)
      × ((id : String)
          → includes (step_ids steps) id ≡ true
          → (w : ℕ) × Placed (deps_of (step_ids steps) steps []) plan.wave_of plan.waves id w)
compute_waves_acyclic le steps rank falls =
    let (plan, eq, laid) = compute_waves-Laid le steps in
    let free =
      acyclic-finishes (deps_of (step_ids steps) steps []) rank falls (step_ids steps) plan laid in
    (plan, eq, free, λ id h. let (w, e) = laid.finished free id h in (w, laid.placed id w e))
