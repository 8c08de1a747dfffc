-- ===== src/Tools/Scope.antt =====
-- In which scope the tools let an agent act.
use bm_agents_world.Common.{
  truth_apart, ℕ, String, true, ◌≡◌, refl, sym, ◌∙◌, subst, ◌⊎◌, Option, none, some, Bool-cases,
  Option-cases, inl, inr, eq_iff, ◌==◌,
}
use bm_agents_world.Json.{Json}
use bm_agents_world.Environment.{Process}
use bm_agents_world.Identity.{
  RequestIdentity, IdentityError, Checked, passes, fails, current_identity, can_access_project,
  can_access_context, assert_project_access,
}
use bm_agents_world.Capability.{
  ExecutionContext, CapabilityDefinition, CapabilityAction, CapabilityRun, EnvironmentName, env_eq,
}
use bm_agents_world.Capability.Store.{CapabilityStore}
use bm_agents_world.Broker.State.{Host, Broker, get_run, start_run}
use bm_agents_world.Broker.Outcome.{Outcome, returns, throws}
use bm_agents_world.Broker.Request.{
  Verdict, denied, proceeds, verdict, deny, accept, conclude, new_action, effective_risk,
  request_known, request_action,
}
use bm_agents_world.Capability.{requires_human}
use bm_agents_world.Common.Dict.{get}
use bm_agents_world.Tools.{
  GovernedToolSurface, Answer, gives, raises, from_broker, run_context, context_for, action_context,
  request_in, request_tool,
}

abbrev pub Each {ℓ κ} : {A : Type ℓ} → (A → Type κ) → Answer A → Type κ
Each P (gives a) = P a
Each P (raises e) = Unit

abbrev pub Returned {ℓ κ} : {A : Type ℓ} → (A → Type κ) → Outcome A → Type κ
Returned P (returns a) = P a
Returned P (throws e) = Unit

pub Each-map {ℓ κ μ} :
    {A : Type ℓ} {P : A → Type κ} {Q : A → Type μ}
    → ((a : A) → P a → Q a)
    → (r : Answer A) → Each P r
    → Each Q r
Each-map f (gives a) x = f a x
Each-map f (raises e) x = tt

pub Checked-cases {ℓ} :
    {A : Type ℓ} (r : Checked A)
    → ((a : A) × (r ≡ passes a)) ⊎ ((e : IdentityError) × (r ≡ fails e))
Checked-cases (passes a) = inl (a, refl)
Checked-cases (fails e) = inr (e, refl)

module _ (host : Host) (db : CapabilityStore) where
  conclude-context :
      (v : Verdict) (b : Broker db.State) (d : CapabilityDefinition) (k : String)
      (c : ExecutionContext) (payload : Json) (hash : String) (t : ℕ) (id : String)
      → Returned (λ a. a.context ≡ c) (conclude host db v b d k c payload hash t id).0
  unfolding conclude deny accept new_action
  conclude-context (denied risk mode reason m) b d k c payload hash t id = refl
  conclude-context proceeds b d k c payload hash t id =
      elim (Bool-cases (requires_human (effective_risk d c.environment))) [
        | inl h ↦ rw h refl
        | inr h ↦ rw h refl
      ]

  request_action-context :
      (b : Broker db.State) (k : String) (c : ExecutionContext) (payload : Json)
      → Returned (λ a. a.context ≡ c) (request_action host db b k c payload).0
  unfolding request_action request_known
  request_action-context b k c payload = elim (Option-cases (get k b.definitions)) [
    | inl h ↦ rw (h, Returned) tt
    | inr (d, h) ↦
        rw (h, Returned)
          (let entry = start_run host db b c in
            conclude-context (verdict entry.grants d k c) _ d k c payload _ _ _)
  ]

env_eq_same : (a b : EnvironmentName) → env_eq a b ≡ true → a ≡ b
env_eq_same EnvironmentName.playground EnvironmentName.playground h = refl
env_eq_same EnvironmentName.qa EnvironmentName.qa h = refl
env_eq_same EnvironmentName.prod EnvironmentName.prod h = refl
env_eq_same _ _ h = absurd (truth_apart (sym h))

-- A context in the tenant of the identity, at the project and the environment that were asked for,
-- with the specialist of the tools.
pub record InScope (identity : RequestIdentity) (who what : String) (place : EnvironmentName)
    (c : ExecutionContext) : Type 0 where
  pub tenant : c.tenant_id ≡ identity.tenant_id
  pub project : c.project_id ≡ what
  pub environment : c.environment ≡ place
  pub agent : c.agent_id ≡ who

context-tenant :
    (p : Process) (identity : RequestIdentity) (c : ExecutionContext)
    → can_access_context p identity c ≡ true
    → c.tenant_id ≡ identity.tenant_id
unfolding can_access_context
context-tenant p identity c h = elim (Bool-cases (identity.tenant_id == c.tenant_id)) [
  | inl same ↦ sym ((eq_iff identity.tenant_id c.tenant_id).0 same)
  | inr other ↦ absurd (truth_apart (sym h ∙ rw other refl))
]

run_context-InScope :
    (p : Process) (surface : GovernedToolSurface) (agent : String) (identity : RequestIdentity)
    (project : String) (environment : EnvironmentName) (run : Option CapabilityRun)
    → Each
        (InScope identity agent project environment)
        (run_context p surface agent identity project environment run)
unfolding run_context
run_context-InScope p surface agent identity project environment none = tt
run_context-InScope p surface agent identity project environment (some run) =
    elim (Bool-cases (can_access_context p identity run.context)) [
      | inr h ↦ rw h tt
      | inl may ↦ elim (Bool-cases (run.context.project_id == project)) [
        | inr h ↦ rw (may, h) tt
        | inl same ↦ elim (Bool-cases (env_eq run.context.environment environment)) [
          | inr h ↦ rw (may, same, h) tt
          | inl here ↦
              rw (may, same, here)
                (record {
                  tenant = context-tenant p identity run.context may;
                  project = (eq_iff run.context.project_id project).0 same;
                  environment = env_eq_same run.context.environment environment here;
                  agent = refl;
                })
        ]
      ]
    ]

module _ (host : Host) (db : CapabilityStore) (p : Process) (stored : Option RequestIdentity)
    (surface : GovernedToolSurface) (agent : String) where
  context_for-InScope :
      (b : Broker db.State) (identity : RequestIdentity) (project : String)
      (environment : EnvironmentName)
      → current_identity p stored ≡ passes identity
      → Each
          (InScope identity agent project environment)
          (context_for host db p stored surface agent b project environment).0
  unfolding context_for assert_project_access
  context_for-InScope b identity project environment known =
      elim (Bool-cases (can_access_project p identity project)) [
        | inr h ↦ rw (known, h, Each) tt
        | inl h ↦
            rw (known, h, Each)
              (record { tenant = refl; project = refl; environment = refl; agent = refl })
      ]

  action_context-InScope :
      (b : Broker db.State) (identity : RequestIdentity) (run_id : Option String) (project : String)
      (environment : EnvironmentName)
      → current_identity p stored ≡ passes identity
      → Each
          (InScope identity agent project environment)
          (action_context host db p stored surface agent b identity run_id project environment).0
  unfolding action_context
  action_context-InScope b identity none project environment known =
      context_for-InScope b identity project environment known
  action_context-InScope b identity (some run_id) project environment known =
      run_context-InScope p surface agent identity project environment (get_run host db b run_id).0

  request_in-InScope :
      (b : Broker db.State) (k : String) (payload : Json) (c : Answer ExecutionContext)
      (P : ExecutionContext → Type 0)
      → Each P c
      → Each (λ a. P a.context) (request_in host db p stored surface agent b k payload c).0
  unfolding request_in
  request_in-InScope b k payload (raises e) P h = tt
  request_in-InScope b k payload (gives c) P h =
      from_broker-Each (request_action host db b k c payload).0
        (request_action-context host db b k c payload)
    where
      from_broker-Each :
          (o : Outcome CapabilityAction)
          → Returned (λ a. a.context ≡ c) o
          → Each (λ a. P a.context) (from_broker o)
      from_broker-Each (returns a) e = subst P (sym e) h
      from_broker-Each (throws e) u = tt

  -- An action that was requested in the name of an identity.
  pub record Requested (project : String) (environment : EnvironmentName) (a : CapabilityAction)
      : Type 0 where
    pub identity : RequestIdentity
    pub current : current_identity p stored ≡ passes identity
    pub authorized : can_access_project p identity project ≡ true
    pub scope : InScope identity agent project environment a.context

  request_tool-Each :
      (b : Broker db.State) (run_id : Option String) (k project : String)
      (environment : EnvironmentName) (payload : Json)
      → Each
          (Requested project environment)
          (request_tool host db p stored surface agent b run_id k project environment payload).0
  unfolding request_tool assert_project_access
  request_tool-Each b run_id k project environment payload =
      elim (Checked-cases (current_identity p stored)) [
        | inr (e, h) ↦ rw (h, Each) tt
        | inl (identity, known) ↦ elim (Bool-cases (can_access_project p identity project)) [
          | inr h ↦ rw (known, h, Each) tt
          | inl may ↦
              rw (known, may, Each)
                (let (c, b') =
                    action_context host db p stored surface agent b identity run_id project
                      environment in
                  Each-map {P = λ a. InScope identity agent project environment a.context}
                    (λ a scope. record {
                      identity = identity;
                      current = known;
                      authorized = may;
                      scope = scope;
                    })
                    (request_in host db p stored surface agent b' k payload c).0
                    (request_in-InScope b' k payload c (InScope identity agent project environment)
                      (action_context-InScope b identity run_id project environment known)))
        ]
      ]

  -- Where the tool that requests an action gives one back, the current identity may access the
  -- project that was named. The context of the action is in that identity's tenant, at the project
  -- and the environment that were named, and names the specialist of the tool, both inside a run
  -- that was started before and on its own.
  pub request_tool-Requested :
      (b : Broker db.State) (run_id : Option String) (k project : String)
      (environment : EnvironmentName) (payload : Json) (a : CapabilityAction)
      → (request_tool host db p stored surface agent b run_id k project environment payload).0
        ≡ gives a
      → Requested project environment a
  request_tool-Requested b run_id k project environment payload a e =
      subst (Each (Requested project environment)) e
        (request_tool-Each b run_id k project environment payload)
