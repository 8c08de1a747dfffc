-- ===== src/Workflow/Runs/History.antt =====
-- The life of a run: callbacks begin in the order of the waves, and the runner answers at any
-- later time, or never. The relation allows them in any order at all.
use bm_agents_world.Common.{
  ℕ, String, Bool, true, false, ◌≡◌, ◌≢◌, refl, sym, ap, ◌∙◌, subst, Option, none, some, List, [],
  ◌∷◌, ◌++◌, arith, Bool-cases, inl, inr, ◌==◌, eq_iff, All, any, all, is_some,
}
use bm_agents_world.Common.Dict.{get, set}
use bm_agents_world.Json.{Json}
use bm_agents_world.Workflow.Compiler.{CompiledWorkflow, CompiledWorkflowStep}
use bm_agents_world.Workflow.Steps.{StepStatus, is_gate}
use bm_agents_world.Workflow.RunStore.{
  WorkflowRunStore, WorkflowStepRunRecord, NewWorkflowRun, get_step, create_run, list_steps,
  step_key,
}
use bm_agents_world.Workflow.RunStore.Keys.{get_step-put_step_other}
use bm_agents_world.Workflow.Runs.{
  Run, InCall, GovernedStepOutcome, WorkflowRunLaunch, Patch, begin_step, settle_step, skip_patch,
  only_status, gate_patch, attempt_after, outcome_patch, keep_result, begin_known, begin_open,
  persist, is_blocked, is_finished, outcome_status, patched, seed, start_run_of, is_completed,
}
use bm_agents_world.Workflow.Runs.Driving.{call_about}

-- A run, and the calls of the runner that have not come back.
pub record Drive : Type 0 where
  pub run : Run
  pub calls : List InCall

abbrev pub with_call : Option InCall → List InCall → List InCall
with_call none cs = cs
with_call (some c) cs = c ∷ cs

pub data Event (can_resume : Bool) (run_id : String) (s t : Drive) : Type 0 where
  begins :
      (now : ℕ) (step : CompiledWorkflowStep)
      → t.run ≡ (begin_step can_resume run_id now s.run step).1
      → t.calls ≡ with_call (begin_step can_resume run_id now s.run step).0 s.calls
      → Event can_resume run_id s t
  settles :
      (now : ℕ) (before after : List InCall) (c : InCall) (outcome : GovernedStepOutcome)
      → s.calls ≡ before ++ c ∷ after
      → t.run ≡ settle_step run_id now s.run c outcome
      → t.calls ≡ before ++ after
      → Event can_resume run_id s t

pub data Drives (can_resume : Bool) (run_id : String) (s : Drive) : Drive → Type 0 where
  nothing_yet : Drives can_resume run_id s s
  then_event :
      {t u : Drive}
      → Drives can_resume run_id s t
      → Event can_resume run_id t u
      → Drives can_resume run_id s u

-- The step is held as `p`, and nobody works on it.
pub record Rests (run_id k : String) (p : WorkflowStepRunRecord) (d : Drive) : Type 0 where
  pub held : get_step d.run.store run_id k ≡ some p
  pub idle : All (λ c. c.step.id ≢ k) d.calls

differs : (a b : String) → (a == b) ≡ false → a ≢ b
differs a b e same = true_false (sym ((eq_iff a b).1 same) ∙ e)
  where
    true_false : true ≡ false → ⊥
    true_false h = cc

store-keep_result :
    (b : Bool) (id : String) (result : Option Json) (r : Run)
    → (keep_result b id result r).store ≡ r.store
store-keep_result false id result r = refl
store-keep_result true id result r = refl

-- Taking a call out.
All-take :
    (P : InCall → Type 0) (before : List InCall) (c : InCall) (after : List InCall)
    → All P (before ++ c ∷ after)
    → All P (before ++ after) × P c
All-take P [] c after (h, hs) = (hs, h)
All-take P (x ∷ before) c after (h, hs) =
    let (rest, at) = All-take P before c after hs in ((h, rest), at)

module _ (run_id k : String) (p : WorkflowStepRunRecord) where
  persist_other :
      (r : Run) (step : CompiledWorkflowStep) (patch : Patch)
      → step.id ≢ k
      → get_step (persist run_id r step patch).store run_id k ≡ get_step r.store run_id k
  unfolding persist
  persist_other r step patch apart =
      get_step-put_step_other r.store (patched run_id step (get_step r.store run_id step.id) patch)
        k apart

  open_other :
      (can_resume : Bool) (now : ℕ) (r : Run) (step : CompiledWorkflowStep)
      (prior : Option WorkflowStepRunRecord)
      → step.id ≢ k
      → get_step (begin_open can_resume run_id now r step prior).1.store run_id k
        ≡ get_step r.store run_id k
  unfolding begin_open
  open_other can_resume now r step prior apart =
      elim (Bool-cases (any (is_blocked r.status) step.depends_on)) [
        | inl b ↦ rw b (persist_other r step (skip_patch now) apart)
        | inr b ↦ elim (Bool-cases (all (is_finished r.status) step.depends_on)) [
          | inr f ↦ elim (Bool-cases (is_some prior)) [
            | inl old ↦ rw (b, f, old) refl
            | inr new ↦ rw (b, f, new) (persist_other r step (only_status StepStatus.pending) apart)
          ]
          | inl f ↦ elim (Bool-cases (is_gate step)) [
            | inl g ↦
                rw (b, f, g) (persist_other r step (gate_patch now (attempt_after prior)) apart)
            | inr g ↦ rw (b, f, g) refl
          ]
        ]
      ]

  known_other :
      (can_resume : Bool) (now : ℕ) (r : Run) (step : CompiledWorkflowStep)
      (prior : Option WorkflowStepRunRecord)
      → step.id ≢ k
      → get_step (begin_known can_resume run_id now r step prior).1.store run_id k
        ≡ get_step r.store run_id k
  unfolding begin_known
  known_other can_resume now r step none apart = open_other can_resume now r step none apart
  known_other can_resume now r step (some q) apart = elim (Bool-cases (is_completed q.status)) [
    | inl c ↦ rw c refl
    | inr c ↦ rw c (open_other can_resume now r step (some q) apart)
  ]

  -- A step that is completed is left alone.
  known_same :
      (can_resume : Bool) (now : ℕ) (r : Run) (step : CompiledWorkflowStep)
      → is_completed p.status ≡ true
      → begin_known can_resume run_id now r step (some p)
        ≡ (none, record r { results = set step.id p.result r.results })
  unfolding begin_known
  known_same can_resume now r step c = rw c refl

  settle_other :
      (now : ℕ) (r : Run) (c : InCall) (outcome : GovernedStepOutcome)
      → c.step.id ≢ k
      → get_step (settle_step run_id now r c outcome).store run_id k ≡ get_step r.store run_id k
  unfolding settle_step
  settle_other now r c outcome apart =
      ap (λ x. get_step x run_id k)
        (store-keep_result (is_completed (outcome_status outcome.status)) c.step.id outcome.result
          (persist run_id r c.step (outcome_patch now c outcome)))
      ∙ persist_other r c.step (outcome_patch now c outcome) apart

module _ (can_resume : Bool) (run_id k : String) (p : WorkflowStepRunRecord)
    (done : is_completed p.status ≡ true) where
  added_idle :
      (o : Option InCall) (cs : List InCall)
      → ((c : InCall) → o ≡ some c → c.step.id ≢ k)
      → All (λ c. c.step.id ≢ k) cs
      → All (λ c. c.step.id ≢ k) (with_call o cs)
  added_idle none cs h idle = idle
  added_idle (some c) cs h idle = (h c refl, idle)

  -- Where the callback of another step begins.
  begin_other :
      (now : ℕ) (step : CompiledWorkflowStep) (d : Drive)
      → Rests run_id k p d
      → step.id ≢ k
      → (get_step (begin_step can_resume run_id now d.run step).1.store run_id k ≡ some p)
        × All
            (λ c. c.step.id ≢ k)
            (with_call (begin_step can_resume run_id now d.run step).0 d.calls)
  begin_other now step d rests apart = (
    unfold begin_step in
        known_other run_id k p can_resume now d.run step (get_step d.run.store run_id step.id) apart
        ∙ rests.held,
    added_idle (begin_step can_resume run_id now d.run step).0 d.calls
        (λ c e. subst (λ s. s.id ≢ k) (sym (call_about can_resume run_id now d.run step c e)) apart)
        rests.idle,
  )

  -- Where the callback of the step itself begins.
  begin_itself :
      (now : ℕ) (step : CompiledWorkflowStep) (d : Drive)
      → Rests run_id k p d
      → step.id ≡ k
      → (get_step (begin_step can_resume run_id now d.run step).1.store run_id k ≡ some p)
        × All
            (λ c. c.step.id ≢ k)
            (with_call (begin_step can_resume run_id now d.run step).0 d.calls)
  begin_itself now step d rests same =
      subst
        (λ x.
          (get_step x.1.store run_id k ≡ some p) × All (λ c. c.step.id ≢ k) (with_call x.0 d.calls))
        (sym eq) (rests.held, rests.idle)
    where
      eq :
          begin_step can_resume run_id now d.run step
          ≡ (none, record d.run { results = set step.id p.result d.run.results })
      eq =
          unfold begin_step in
          ap (begin_known can_resume run_id now d.run step)
            (ap (get_step d.run.store run_id) same ∙ rests.held)
          ∙ known_same run_id k p can_resume now d.run step done

  Event-Rests :
      (s t : Drive) → Event can_resume run_id s t → Rests run_id k p s → Rests run_id k p t
  Event-Rests s t (begins now step run calls) rests = record {
    held = ap (λ r. get_step r.store run_id k) run ∙ both.0;
    idle = subst (All (λ c. c.step.id ≢ k)) (sym calls) both.1;
  }
    where
      both :
          (get_step (begin_step can_resume run_id now s.run step).1.store run_id k ≡ some p)
          × All
              (λ c. c.step.id ≢ k)
              (with_call (begin_step can_resume run_id now s.run step).0 s.calls)
      both = elim (Bool-cases (step.id == k)) [
        | inl e ↦ begin_itself now step s rests ((eq_iff step.id k).0 e)
        | inr e ↦ begin_other now step s rests λ same. differs step.id k e same
      ]
  Event-Rests s t (settles now before after c outcome flew run calls) rests =
      let (idle, apart) =
        All-take (λ x. x.step.id ≢ k) before c after
          (subst (All (λ x. x.step.id ≢ k)) flew rests.idle) in
      record {
        held =
            ap (λ r. get_step r.store run_id k) run
            ∙ settle_other run_id k p now s.run c outcome apart
            ∙ rests.held;
        idle = subst (All (λ x. x.step.id ≢ k)) (sym calls) idle;
      }

  Drives-Rests :
      (s t : Drive) → Drives can_resume run_id s t → Rests run_id k p s → Rests run_id k p t
  Drives-Rests s t nothing_yet rests = rests
  Drives-Rests s t (then_event {t = u} ds e) rests = Event-Rests u t e (Drives-Rests s u ds rests)

store-seed : (entries : List WorkflowStepRunRecord) (r : Run) → (seed entries r).store ≡ r.store
unfolding seed
store-seed [] r = refl
store-seed (e ∷ entries) r = store-seed entries _

steps-create_run :
    (store : WorkflowRunStore) (input : NewWorkflowRun) (now : ℕ)
    → (create_run store input now).1.steps ≡ store.steps
unfolding create_run
steps-create_run store input now = ground arith

-- A run that starts from a store, before its first step.
abbrev pub launched :
    (String → String → Bool) → WorkflowRunStore → CompiledWorkflow → WorkflowRunLaunch → ℕ → Drive
launched le store compiled launch now = record {
  run = start_run_of le store compiled launch now;
  calls = [];
}

get_step-launched :
    (le : String → String → Bool) (store : WorkflowRunStore) (compiled : CompiledWorkflow)
    (launch : WorkflowRunLaunch) (now : ℕ) (k : String)
    → get_step (start_run_of le store compiled launch now).store launch.run_id k
      ≡ get_step store launch.run_id k
unfolding start_run_of get_step
get_step-launched le store compiled launch now k =
    ap (λ s. get (step_key launch.run_id k) s.steps)
      (store-seed (list_steps le (create_run store _ now).1 launch.run_id) _)
    ∙ ap (get (step_key launch.run_id k)) (steps-create_run store _ now)

-- If the store has a step of a run as completed, then through every later launch of the run, with
-- whatever workflow, however the callbacks and the answers of the runner interleave, its record in
-- the store stays as it is, and no call of the runner is made for it.
pub completed_stays :
    (can_resume : Bool) (le : String → String → Bool) (store : WorkflowRunStore)
    (compiled : CompiledWorkflow) (launch : WorkflowRunLaunch) (now : ℕ) (k : String)
    (p : WorkflowStepRunRecord) (t : Drive)
    → get_step store launch.run_id k ≡ some p
    → p.status ≡ StepStatus.completed
    → Drives can_resume launch.run_id (launched le store compiled launch now) t
    → (get_step t.run.store launch.run_id k ≡ some p) × All (λ c. c.step.id ≢ k) t.calls
completed_stays can_resume le store compiled launch now k p t held done drives =
    let rests =
      Drives-Rests can_resume launch.run_id k p (ap is_completed done)
        (launched le store compiled launch now) t drives
        (record { held = get_step-launched le store compiled launch now k ∙ held; idle = _ }) in
    (rests.held, rests.idle)
