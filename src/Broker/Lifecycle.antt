-- ===== src/Broker/Lifecycle.antt =====
-- The lifecycle of an action, as the abstract specification that the broker's methods refine: the
-- steps that its status may take, and what no step changes.
use bm_agents_world.Common.{Bool, true, false, ◌≡◌, sym, ◌∙◌, subst, Option, none, some}
use bm_agents_world.Capability.{
  CapabilityAction, ActionStatus, ready, pending_approval, approved, rejected, executing, executed,
  failed,
}

abbrev pub IsInitial : ActionStatus → Type 0
IsInitial ready = Unit
IsInitial pending_approval = Unit
IsInitial rejected = Unit
IsInitial _ = ⊥

-- One step. Only where `ends` is true may it end an execution.
abbrev pub Next : Bool → ActionStatus → ActionStatus → Type 0
Next ends pending_approval approved = Unit
Next ends pending_approval rejected = Unit
Next ends ready executing = Unit
Next ends approved executing = Unit
Next ends executing executed = ends ≡ true
Next ends executing failed = ends ≡ true
Next ends _ _ = ⊥

-- What was asked for stays.
pub record SameRequest (a a' : CapabilityAction) : Type 0 where
  pub id : a'.id ≡ a.id
  pub capability_id : a'.capability_id ≡ a.capability_id
  pub context : a'.context ≡ a.context
  pub payload : a'.payload ≡ a.payload
  pub payload_hash : a'.payload_hash ≡ a.payload_hash
  pub risk_level : a'.risk_level ≡ a.risk_level
  pub created_at : a'.created_at ≡ a.created_at

pub data Edge (ends : Bool) (o o' : Option CapabilityAction) : Type 0 where
  created : (a : CapabilityAction) → o ≡ none → o' ≡ some a → IsInitial a.status → Edge ends o o'
  moved :
      (a a' : CapabilityAction)
      → o ≡ some a
      → o' ≡ some a'
      → Next ends a.status a'.status
      → SameRequest a a'
      → Edge ends o o'

-- Any number of steps.
pub data Trail (ends : Bool) (o : Option CapabilityAction) : Option CapabilityAction → Type 0 where
  here : {o' : Option CapabilityAction} → o' ≡ o → Trail ends o o'
  along : {m o' : Option CapabilityAction} → Trail ends o m → Edge ends m o' → Trail ends o o'

pub Trail-trans :
    {ends : Bool} {o m o' : Option CapabilityAction}
    → Trail ends o m
    → Trail ends m o'
    → Trail ends o o'
Trail-trans {ends} {o} t (here e) = subst (Trail ends o) (sym e) t
Trail-trans t (along s edge) = along (Trail-trans t s) edge

abbrev IsExecuting : Option CapabilityAction → Type 0
IsExecuting none = ⊥
IsExecuting (some a) = a.status ≡ executing

not-Next : (s : ActionStatus) → Next false executing s → ⊥
not-Next executed h = cc
not-Next failed h = cc
not-Next pending_approval h = h
not-Next _ h = h

not-Edge : {o m : Option CapabilityAction} → IsExecuting o → Edge false o m → ⊥
not-Edge h (created a e _ _) = subst IsExecuting e h
not-Edge h (moved a a' e _ n _) =
    not-Next a'.status (subst (λ s. Next false s a'.status) (subst IsExecuting e h) n)

-- While no execution ends, an executing action stays as it is.
pub executing_stays :
    {o o' : Option CapabilityAction} (a : CapabilityAction)
    → o ≡ some a
    → a.status ≡ executing
    → Trail false o o'
    → o' ≡ some a
executing_stays a e h (here same) = same ∙ e
executing_stays a e h (along t edge) =
    absurd (not-Edge (subst IsExecuting (sym (executing_stays a e h t)) h) edge)
