-- ===== src/Workflow/Runs/Driving.antt =====
-- When the executor calls the runner for a step, and how.
use bm_agents_world.Common.{
  ◌≢◌, ◌↔◌, ap, List, [], ◌∷◌, All, both_true, truth_apart, ℕ, String, Bool, true, false, ◌≡◌, refl,
  sym, subst, ◌∙◌, Option, none, some, all, any, arith, suc, ◌&&◌, not, ◌==◌, Option-cases,
  Bool-cases, inl, inr,
}
use bm_agents_world.Common.Dict.{Dict, get}
use bm_agents_world.Workflow.Compiler.{CompiledWorkflowStep}
use bm_agents_world.Workflow.Steps.{StepStatus, is_gate, step_status_eq}
use bm_agents_world.Workflow.RunStore.{WorkflowStepRunRecord, get_step}
use bm_agents_world.Workflow.Runs.{
  status_is, Run, InCall, resumes, runs, begin_step, begin_known, begin_open, attempt_after,
  call_for, is_completed, is_blocked, is_finished,
}

-- The store does not have the step as completed.
abbrev pub IsOpen : Option WorkflowStepRunRecord → Type 0
IsOpen none = Unit
IsOpen (some p) = p.status ≢ StepStatus.completed

-- A step that can be driven now.
pub record IsReady (run_id : String) (r : Run) (step : CompiledWorkflowStep) : Type 0 where
  pub open_step : IsOpen (get_step r.store run_id step.id)
  pub finished : All (λ dep. get dep r.status ≡ some StepStatus.completed) step.depends_on
  pub no_gate : is_gate step ≡ false

-- The stored step waits for the approval of the action `action`, and the runner can resume it.
pub record IsResumable (can_resume : Bool) (prior : Option WorkflowStepRunRecord) (action : String)
    : Type 0 where
  pub held : WorkflowStepRunRecord
  pub stored : prior ≡ some held
  pub awaiting : held.status ≡ StepStatus.awaiting_approval
  pub bound_to : held.capability_action_id ≡ some action
  pub named : (action == "") ≡ false
  pub able : can_resume ≡ true

-- The first attempt, or the one after the stored one.
abbrev pub IsNextAttempt : Option WorkflowStepRunRecord → ℕ → Type 0
IsNextAttempt none n = n ≡ 1
IsNextAttempt (some p) n = n ≡ suc p.attempt

-- A call as the executor makes it, which leaves the state as it is.
pub record IsDriven (can_resume : Bool) (run_id : String) (now : ℕ) (r : Run)
    (step : CompiledWorkflowStep) (o : Option InCall × Run) : Type 0 where
  pub made : InCall
  pub returned : o.0 ≡ some made
  pub about : made.step ≡ step
  pub started : made.started ≡ now
  pub counted : IsNextAttempt (get_step r.store run_id step.id) made.attempt
  pub resumed :
      (action : String)
      → IsResumable can_resume (get_step r.store run_id step.id) action
      → made.call ≡ resumes action
  pub afresh :
      ((action : String) → IsResumable can_resume (get_step r.store run_id step.id) action → ⊥)
      → made.call ≡ runs
  pub untouched : o.1 ≡ r

is_completed_iff : (s : StepStatus) → (is_completed s ≡ true) ↔ (s ≡ StepStatus.completed)
is_completed_iff s = (λ h. ground arith, λ h. rw h refl)

finished_known :
    (o : Option StepStatus)
    → status_is StepStatus.completed o ≡ true
    → o ≡ some StepStatus.completed
finished_known none h = absurd (truth_apart (sym h))
finished_known (some s) h = ap some (ground arith)

-- Dependencies that are completed have neither failed nor been skipped.
finished_All :
    (status : Dict StepStatus) (deps : List String)
    → all (is_finished status) deps ≡ true
    → All (λ dep. get dep status ≡ some StepStatus.completed) deps
finished_All status [] h = tt
finished_All status (dep ∷ deps) h =
    let (a, b) = both_true _ _ h in (finished_known (get dep status) a, finished_All status deps b)

all_finished :
    (status : Dict StepStatus) (deps : List String)
    → All (λ dep. get dep status ≡ some StepStatus.completed) deps
    → (any (is_blocked status) deps ≡ false) × (all (is_finished status) deps ≡ true)
all_finished status [] h = (refl, refl)
all_finished status (dep ∷ deps) h =
    let (a, b) = all_finished status deps h.1 in (rw h.0 a, rw h.0 b)

attempt_after-IsNextAttempt :
    (prior : Option WorkflowStepRunRecord) → IsNextAttempt prior (attempt_after prior)
attempt_after-IsNextAttempt none = refl
attempt_after-IsNextAttempt (some p) = refl

call_for-resumes :
    (can_resume : Bool) (prior : Option WorkflowStepRunRecord) (action : String)
    → IsResumable can_resume prior action
    → call_for can_resume prior ≡ resumes action
unfolding call_for
call_for-resumes can_resume prior action q =
    rw (q.stored, call_for, q.bound_to, q.awaiting, q.named, q.able) refl

call_for-runs :
    (can_resume : Bool) (prior : Option WorkflowStepRunRecord)
    → ((action : String) → IsResumable can_resume prior action → ⊥)
    → call_for can_resume prior ≡ runs
unfolding call_for
call_for-runs can_resume none h = refl
call_for-runs can_resume (some p) h = elim (Option-cases p.capability_action_id) [
  | inl e ↦ rw (e, call_for) refl
  | inr (action, e) ↦
      elim (Bool-cases (
        step_status_eq p.status StepStatus.awaiting_approval && not (action == "") && can_resume)) [
          | inr f ↦ rw (e, call_for, f) refl
          | inl f ↦ absurd (h action (resumable action e f))
        ]
]
  where
    resumable :
        (action : String)
        → p.capability_action_id ≡ some action
        → (step_status_eq p.status StepStatus.awaiting_approval && not (action == "") && can_resume)
          ≡ true
        → IsResumable can_resume (some p) action
    resumable action e f = record {
      held = p;
      stored = refl;
      awaiting = ground arith;
      bound_to = e;
      named = ground arith;
      able = ground arith;
    }

module _ (can_resume : Bool) (run_id : String) (now : ℕ) (r : Run)
    (step : CompiledWorkflowStep) where
  open_ready :
      (prior : Option WorkflowStepRunRecord) (c : InCall)
      → (begin_open can_resume run_id now r step prior).0 ≡ some c
      → (any (is_blocked r.status) step.depends_on ≡ false)
        × (all (is_finished r.status) step.depends_on ≡ true)
        × (is_gate step ≡ false)
  unfolding begin_open
  open_ready prior c e = (ground arith, ground arith, ground arith)

  open_about :
      (prior : Option WorkflowStepRunRecord) (c : InCall)
      → (begin_open can_resume run_id now r step prior).0 ≡ some c
      → c.step ≡ step
  unfolding begin_open
  open_about prior c e = ground arith

  begins-IsOpen :
      (prior : Option WorkflowStepRunRecord) (c : InCall)
      → (begin_known can_resume run_id now r step prior).0 ≡ some c
      → IsOpen prior × ((begin_open can_resume run_id now r step prior).0 ≡ some c)
  unfolding begin_known
  begins-IsOpen none c e = (_, e)
  begins-IsOpen (some p) c e = elim (Bool-cases (is_completed p.status)) [
    | inl closed ↦ absurd (none_some (rw closed at e))
    | inr open_now ↦ (
      λ closed. truth_apart (sym ((is_completed_iff p.status).1 closed) ∙ open_now),
      rw open_now at e,
    )
  ]
    where
      none_some : {A : Type 0} {x : A} → none ≡ some x → ⊥
      none_some h = cc

  known_opens :
      (prior : Option WorkflowStepRunRecord)
      → IsOpen prior
      → begin_known can_resume run_id now r step prior
        ≡ begin_open can_resume run_id now r step prior
  unfolding begin_known
  known_opens none o = refl
  known_opens (some p) o = elim (Bool-cases (is_completed p.status)) [
    | inl closed ↦ absurd (o ((is_completed_iff p.status).0 closed))
    | inr open_now ↦ rw open_now refl
  ]

  -- What a call looks like.
  call : Option WorkflowStepRunRecord → InCall
  call prior = record {
    step = step;
    call = call_for can_resume prior;
    attempt = attempt_after prior;
    started = now;
  }

  open_calls :
      (prior : Option WorkflowStepRunRecord)
      → any (is_blocked r.status) step.depends_on ≡ false
      → all (is_finished r.status) step.depends_on ≡ true
      → is_gate step ≡ false
      → begin_open can_resume run_id now r step prior ≡ (some (call prior), r)
  unfolding begin_open call
  open_calls prior u f g = rw (u, f, g) refl

  ready_opens :
      IsReady run_id r step
      → IsDriven can_resume run_id now r step (begin_step can_resume run_id now r step)
  unfolding begin_step
  ready_opens ready = subst (IsDriven can_resume run_id now r step) (sym eq) (
      unfold call in
      record {
        made = _;
        returned = refl;
        about = refl;
        started = refl;
        counted = attempt_after-IsNextAttempt (get_step r.store run_id step.id);
        resumed = call_for-resumes can_resume (get_step r.store run_id step.id);
        afresh = call_for-runs can_resume (get_step r.store run_id step.id);
        untouched = refl;
      })
    where
      eq :
          begin_known can_resume run_id now r step (get_step r.store run_id step.id)
          ≡ (some (call (get_step r.store run_id step.id)), r)
      eq =
          known_opens (get_step r.store run_id step.id) ready.open_step
          ∙ open_calls (get_step r.store run_id step.id)
              (all_finished r.status step.depends_on ready.finished).0
              (all_finished r.status step.depends_on ready.finished).1 ready.no_gate

-- A call is made for the step itself.
pub call_about :
    (can_resume : Bool) (run_id : String) (now : ℕ) (r : Run) (step : CompiledWorkflowStep)
    (c : InCall)
    → (begin_step can_resume run_id now r step).0 ≡ some c
    → c.step ≡ step
unfolding begin_step
call_about can_resume run_id now r step c e =
    open_about can_resume run_id now r step (get_step r.store run_id step.id) c
      (begins-IsOpen can_resume run_id now r step (get_step r.store run_id step.id) c e).1

-- The executor calls the runner for a step, in whatever state of the run, exactly if the store does
-- not have the step as completed, all its dependencies are completed (so none has failed or was
-- skipped), and it is no gate. The call resumes the stored action, if the stored record awaits an
-- approval and has the id of an action that is not empty, and the runner can resume; else it runs
-- the step anew. It is the attempt after the stored one, the first if there is none, and making it
-- changes nothing in the state.
pub begin_step_iff :
    (can_resume : Bool) (run_id : String) (now : ℕ) (r : Run) (step : CompiledWorkflowStep)
    → (IsReady run_id r step
        → IsDriven can_resume run_id now r step (begin_step can_resume run_id now r step))
      × ((c : InCall)
          → (begin_step can_resume run_id now r step).0 ≡ some c
          → IsReady run_id r step)
unfolding begin_step
begin_step_iff can_resume run_id now r step = (
  ready_opens can_resume run_id now r step,
  λ c e.
      let prior = get_step r.store run_id step.id in
      let (o, e') = begins-IsOpen can_resume run_id now r step prior c e in
      let (u, f, g) = open_ready can_resume run_id now r step prior c e' in
      record { open_step = o; finished = finished_All r.status step.depends_on f; no_gate = g },
)
