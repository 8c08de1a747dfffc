-- ===== src/Workflow/Steps.antt =====
-- The types and predicates of apps/agent-window/src/server/workflow-executor.ts that the stateful
-- executor shares.
use Prim.Native.Char.{code}
use Prim.Native.String.{[], ◌∷◌}
use mathlib.Core.List.{◌∷◌ as ◌∷ᴸ◌}
use bm_agents_world.Common.{
  ℕ, ◌+◌, String, Bool, true, false, not, ◌&&◌, ◌||◌, Option, none, some, List, nat_eq, includes,
  ◌==◌,
}
use bm_agents_world.Common.Dict.{Dict}
use bm_agents_world.Json.{Json}
use bm_agents_world.Workflow.Compiler.{CompiledWorkflowStep}

pub data StepStatus : Type 0 where
  pending running completed failed awaiting_approval skipped : StepStatus

pub data WorkflowStatus : Type 0 where
  completed failed awaiting_approval : WorkflowStatus

pub record StepState : Type 0 where
  pub id : String
  pub status : StepStatus
  pub wave : Option ℕ
  pub started_at : Option ℕ
  pub finished_at : Option ℕ
  pub result : Option Json
  pub error : Option String

pub record WorkflowRunResult : Type 0 where
  pub run_id : String
  pub workflow_id : String
  pub status : WorkflowStatus
  pub steps : List StepState
  pub paused_at : Option String
  pub diagnostics : List String

-- The context that a runner is given, without the fields of the stateless executor.
pub record WorkflowRunContext : Type 0 where
  pub run_id : String
  pub inputs : Option Json
  pub results : Dict (Option Json)

abbrev pub step_status_eq : StepStatus → StepStatus → Bool
step_status_eq StepStatus.pending StepStatus.pending = true
step_status_eq StepStatus.running StepStatus.running = true
step_status_eq StepStatus.completed StepStatus.completed = true
step_status_eq StepStatus.failed StepStatus.failed = true
step_status_eq StepStatus.awaiting_approval StepStatus.awaiting_approval = true
step_status_eq StepStatus.skipped StepStatus.skipped = true
step_status_eq _ _ = false

-- A text begins with the lower-case letters of these numbers, in either case.
unfoldable pub starts_folded : List ℕ → String → Bool
starts_folded List.[] s = true
starts_folded (List.◌∷◌ n ns) [] = false
starts_folded (List.◌∷◌ n ns) (c ∷ s) =
    (nat_eq (code c) n || nat_eq (code c + 32) n) && starts_folded ns s

unfoldable pub has_folded : List ℕ → String → Bool
unfolding starts_folded
has_folded word [] = starts_folded word []
has_folded word (c ∷ s) = starts_folded word (c ∷ s) || has_folded word s

abbrev letters_of_approval : List ℕ
letters_of_approval = 97 ∷ᴸ 112 ∷ᴸ 112 ∷ᴸ 114 ∷ᴸ 111 ∷ᴸ 118 ∷ᴸ 97 ∷ᴸ 108 ∷ᴸ List.[]

abbrev letters_of_gate : List ℕ
letters_of_gate = 103 ∷ᴸ 97 ∷ᴸ 116 ∷ᴸ 101 ∷ᴸ List.[]

abbrev gate_types : List String
gate_types = "human-approval" ∷ᴸ "policy-and-human-gate" ∷ᴸ List.[]

unfoldable pub is_gate_type : Option String → Bool
unfolding has_folded
is_gate_type none = false
is_gate_type (some kind) =
    not (kind == "")
    && (includes gate_types kind
        || has_folded letters_of_approval kind
        || has_folded letters_of_gate kind)

-- `isGate`
abbrev pub is_gate : CompiledWorkflowStep → Bool
is_gate step = is_gate_type step.kind

-- A field that is there and not empty.
abbrev pub is_given : Option String → Bool
is_given none = false
is_given (some s) = not (s == "")

-- `isExecutable`
abbrev pub is_executable : CompiledWorkflowStep → Bool
is_executable step = is_given step.skill || is_given step.tool || is_given step.action

-- `declaresSideEffect`
abbrev pub declares_side_effect : CompiledWorkflowStep → Bool
declares_side_effect step = is_given step.tool || is_given step.action
