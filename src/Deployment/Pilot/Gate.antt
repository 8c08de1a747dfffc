-- ===== src/Deployment/Pilot/Gate.antt =====
-- What a pilot needs to be valid.
use bm_agents_world.Common.{
  find, ◌==◌, ℕ, suc, ◌≤◌, String, Bool, true, not, ◌≡◌, refl, sym, ◌∙◌, ◌↔◌, Option, List, [], ◌∷◌,
  length, all, keep, nat_eq, arith, All, all-All, All-all, met, meets, all-append, both_true,
  and_true, eq_iff, Bool-cases, inl, inr, truth_apart,
}
use bm_agents_world.Environment.{Process}
use bm_agents_world.Identity.{IdentitySource, can_access_project}
use bm_agents_world.Capability.{live}
use bm_agents_world.Deployment.{
  TargetEnvironment, PersistenceMode, postgres_supabase, is_postgres, requires_jira_write,
}
use bm_agents_world.Deployment.Conditions.{is_live_same, live_is, ltb_zero, ltb_pos}
use bm_agents_world.Deployment.Pilot.Projects.{
  HasRepository, counted-HasRepository, HasRepository-counted, IsCovered, IsCovered-iff, IsTested,
  tested, IsTested-checked,
}
use bm_agents_world.Deployment.Pilot.{
  PilotInput, Rounded, pilot_target_projects, pilot_required_environments, missing_environments,
  profile_of, is_gateway, project_checks, all_project_checks, pilot_checks, is_passed,
  build_pilot_validation,
}

module _ (p : Process) (input : PilotInput) where
  pub record IsProjectReady (required : List TargetEnvironment) (project : String) : Type 0 where
    pub authorized : can_access_project p input.identity project ≡ true
    pub repositories : HasRepository input.integrations.bitbucket.projects project
    pub bitbucket : input.integrations.bitbucket.mode ≡ live
    pub playwright : input.integrations.playwright.mode ≡ live
    pub covered : All (IsCovered p project input.integrations.playwright.targets) required
    pub tests :
        IsTested p project (find (λ t. p.lower t.project_id == p.lower project) input.project_tests)

  pub record IsPilotValid : Type 0 where
    pub deployment : input.deployment.ready ≡ true
    pub identity : input.identity.source ≡ IdentitySource.trusted_headers
    pub shared : input.persistence.shared ≡ true
    pub postgres : input.persistence.mode ≡ postgres_supabase
    pub policy_on : input.policy.configured ≡ true
    pub policy_mode : input.policy.mode ≡ "opa"
    pub policy_healthy : input.policy.healthy ≡ true
    pub policy_closed : input.policy.fail_closed ≡ true
    pub connectors : 1 ≤ input.policy.connector_count
    pub jira : input.integrations.jira.mode ≡ live
    pub jira_write : requires_jira_write p ≡ true → input.integrations.jira.write_mode ≡ live
    pub projects : All (IsProjectReady (pilot_required_environments p)) (pilot_target_projects p)

  All-map :
      {A : Type 0} {P Q : A → Type 0} → ((x : A) → P x → Q x) → (xs : List A) → All P xs → All Q xs
  All-map f [] h = tt
  All-map f (x ∷ xs) h = (f x h.0, All-map f xs h.1)

  keep_none :
      {A : Type 0} (f : A → Bool) (xs : List A)
      → nat_eq (length (keep (λ x. not (f x)) xs)) 0 ≡ true
      → All (λ x. f x ≡ true) xs
  keep_none f [] h = tt
  keep_none f (x ∷ xs) h = elim (Bool-cases (f x)) [
    | inl e ↦ (e, keep_none f xs (rw e at h))
    | inr e ↦ absurd (stuck _ (rw e at h))
  ]
    where
      stuck : (n : ℕ) → nat_eq (suc n) 0 ≡ true → ⊥
      stuck n h = ground arith

  none_kept :
      {A : Type 0} (f : A → Bool) (xs : List A)
      → All (λ x. f x ≡ true) xs
      → nat_eq (length (keep (λ x. not (f x)) xs)) 0 ≡ true
  none_kept f [] h = refl
  none_kept f (x ∷ xs) h = rw h.0 (none_kept f xs h.1)

  project_ready :
      (required : List TargetEnvironment) (project : String)
      → all (is_passed p) (project_checks p input required project) ≡ true
      → IsProjectReady required project
  unfolding project_checks missing_environments
  project_ready required project h =
      let m = all-All (is_passed p) (project_checks p input required project) h in
      let (k, b) = both_true _ _ m.1.0 in
      let (l, c) = both_true _ _ m.1.1.0 in
      let (f, n) = both_true _ _ m.1.1.1.0 in
      record {
        authorized = m.0;
        repositories = counted-HasRepository _ project k;
        bitbucket = is_live_same _ b;
        playwright = is_live_same _ l;
        covered =
            All-map (λ e. (IsCovered-iff p project input.integrations.playwright.targets e).0)
              required (keep_none _ required c);
        tests = tested p project (profile_of p input project) f (ltb_zero _ n);
      }

  ready_project :
      (required : List TargetEnvironment) (project : String)
      → IsProjectReady required project
      → all (is_passed p) (project_checks p input required project) ≡ true
  unfolding project_checks missing_environments
  ready_project required project r =
      All-all (is_passed p) (project_checks p input required project) (
        r.authorized,
        (
          and_true _ _ (HasRepository-counted _ project r.repositories) (live_is r.bitbucket),
          (
            and_true _ _ (live_is r.playwright) (
                none_kept _ required (
                  All-map (λ e. (IsCovered-iff p project input.integrations.playwright.targets e).1)
                    required r.covered)),
            (
              and_true _ _ (IsTested-checked p project _ r.tests).0
                  (ltb_pos _ (IsTested-checked p project _ r.tests).1),
              tt,
            ),
          ),
        ),
      )

  projects_ready :
      (required : List TargetEnvironment) (projects : List String)
      → all (is_passed p) (all_project_checks p input required projects) ≡ true
      → All (IsProjectReady required) projects
  unfolding all_project_checks
  projects_ready required [] h = tt
  projects_ready required (x ∷ xs) h =
      let (a, b) = both_true _ _ (
        sym (
          all-append (is_passed p) (project_checks p input required x)
            (all_project_checks p input required xs))
        ∙ h) in
      (project_ready required x a, projects_ready required xs b)

  ready_projects :
      (required : List TargetEnvironment) (projects : List String)
      → All (IsProjectReady required) projects
      → all (is_passed p) (all_project_checks p input required projects) ≡ true
  unfolding all_project_checks
  ready_projects required [] h = refl
  ready_projects required (x ∷ xs) h =
      all-append (is_passed p) (project_checks p input required x)
        (all_project_checks p input required xs)
      ∙ and_true _ _ (ready_project required x h.0) (ready_projects required xs h.1)

  is_gateway_same : (s : IdentitySource) → is_gateway s ≡ true → s ≡ IdentitySource.trusted_headers
  is_gateway_same IdentitySource.trusted_headers h = refl
  is_gateway_same _ h = absurd (truth_apart (sym h))

  is_postgres_same : (m : PersistenceMode) → is_postgres m ≡ true → m ≡ postgres_supabase
  is_postgres_same postgres_supabase h = refl
  is_postgres_same _ h = absurd (truth_apart (sym h))

  base_valid :
      all (is_passed p) (pilot_checks p input) ≡ true
      → All (IsProjectReady (pilot_required_environments p)) (pilot_target_projects p)
      → IsPilotValid
  base_valid h projects =
      let m = all-All (is_passed p) (pilot_checks p input) h in
      let (a, closed) = both_true _ _ m.1.1.1.0 in
      let (c, healthy) = both_true _ _ a in
      let (on, mode) = both_true _ _ c in
      let (shared, kept) = both_true _ _ m.1.1.0 in
      record {
        deployment = m.0;
        identity = is_gateway_same _ m.1.0;
        shared = shared;
        postgres = is_postgres_same _ kept;
        policy_on = on;
        policy_mode = (eq_iff input.policy.mode "opa").0 mode;
        policy_healthy = healthy;
        policy_closed = closed;
        connectors = ltb_zero _ m.1.1.1.1.0;
        jira = is_live_same _ m.1.1.1.1.1.0;
        jira_write = λ w. is_live_same _ (met _ _ m.1.1.1.1.1.1.0 w);
        projects = projects;
      }

  valid_base : IsPilotValid → all (is_passed p) (pilot_checks p input) ≡ true
  valid_base v = All-all (is_passed p) (pilot_checks p input) (
    v.deployment,
    (
      rw v.identity refl,
      (
        and_true _ _ v.shared (rw v.postgres refl),
        (
          and_true _ _
              (and_true _ _
                (and_true _ _ v.policy_on ((eq_iff input.policy.mode "opa").1 v.policy_mode))
                v.policy_healthy)
              v.policy_closed,
          (
            ltb_pos _ v.connectors,
            (live_is v.jira, (meets _ _ (λ w. live_is (v.jira_write w)), tt)),
          ),
        ),
      ),
    ),
  )

  -- The validation of a pilot is ready exactly when the deployment is ready, the identity is the
  -- gateway's, persistence is shared Postgres, the policy is a healthy OPA that fails closed, with
  -- connectors loaded, Jira is live, for writes too where they are required, and each project of
  -- the pilot is one that the identity may access, with a repository on live Bitbucket (or the name
  -- of a function that takes parameters in `Object.prototype`, which counts as one), a target
  -- of live Playwright in each environment that is required, and a configured profile of tests
  -- with at least one case.
  pub build_pilot_validation-IsPilotValid :
      (round : Option String → Option Rounded)
      → ((build_pilot_validation p round input).ready ≡ true) ↔ IsPilotValid
  unfolding build_pilot_validation
  build_pilot_validation-IsPilotValid round =
      let required = pilot_required_environments p in
      let projects = pilot_target_projects p in
      let split =
        all-append (is_passed p) (pilot_checks p input)
          (all_project_checks p input required projects) in
      (
        (λ h.
            let (a, b) = both_true _ _ (sym split ∙ h) in
            base_valid a (projects_ready required projects b)),
        (λ v. split ∙ and_true _ _ (valid_base v) (ready_projects required projects v.projects)),
      )
