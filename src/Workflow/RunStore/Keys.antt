-- ===== src/Workflow/RunStore/Keys.antt =====
-- Looking up a step after a write.
use Prim.Native.String.{◌++◌}
use text.Mathlib.TextLemmas.{append_cancel_left}
use bm_agents_world.Common.{
  String, false, ◌≡◌, ◌≢◌, refl, ◌∙◌, some, ◌==◌, eq_iff, Bool-cases, inl, inr,
}
use bm_agents_world.Common.Dict.{get-set, get-set_self}
use bm_agents_world.Workflow.RunStore.{
  WorkflowRunStore, WorkflowStepRunRecord, step_key, get_step, put_step,
}

-- At one run, the keys of different steps differ.
step_key_injective : (r s t : String) → step_key r s ≡ step_key r t → s ≡ t
unfolding step_key
step_key_injective r s t e =
    append_cancel_left "::" s t (append_cancel_left r ("::" ++ s) ("::" ++ t) e)

pub get_step-put_step_self :
    (store : WorkflowRunStore) (step : WorkflowStepRunRecord)
    → get_step (put_step store step) step.run_id step.step_id ≡ some step
unfolding get_step put_step
get_step-put_step_self store step =
    get-set_self (step_key step.run_id step.step_id) step store.steps

pub get_step-put_step_other :
    (store : WorkflowRunStore) (step : WorkflowStepRunRecord) (k : String)
    → step.step_id ≢ k
    → get_step (put_step store step) step.run_id k ≡ get_step store step.run_id k
unfolding get_step put_step
get_step-put_step_other store step k apart =
    get-set (step_key step.run_id step.step_id) (step_key step.run_id k) step store.steps
    ∙ rw differ refl
  where
    differ : (step_key step.run_id step.step_id == step_key step.run_id k) ≡ false
    differ = elim (Bool-cases (step_key step.run_id step.step_id == step_key step.run_id k)) [
      | inl e ↦ absurd (
          apart (
            step_key_injective step.run_id step.step_id k
              ((eq_iff (step_key step.run_id step.step_id) (step_key step.run_id k)).0 e)))
      | inr e ↦ e
    ]
