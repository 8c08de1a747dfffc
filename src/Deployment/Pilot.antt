-- ===== src/Deployment/Pilot.antt =====
-- apps/agent-window/src/server/platform/pilot-validation.ts: whether a pilot may begin.
pub mod Projects
pub mod Gate
pub mod Replicas
use bm_agents_world.Common.{
  ℕ, zero, suc, ◌+◌, String, Bool, true, false, not, ◌&&◌, ◌||◌, Option, none, some, List, [], ◌∷◌,
  ◌++◌, map, length, all, any, keep, find, includes, concat, join, ltb, leb, nat_eq, or_default,
  if◌then◌else◌, ◌==◌,
}
use bm_agents_world.Common.Dict.{get}
use bm_agents_world.Common.ObjectLiteral.{Looked, undefined_value, own_value, inherited_value, look}
use bm_agents_world.Environment.{Process, csv, or_text, trimmed}
use bm_agents_world.Identity.{RequestIdentity, IdentitySource, can_access_project}
use bm_agents_world.Deployment.{
  QaIntegrationStatus, BitbucketRepositoryRef, PlaywrightTargetRef, TargetEnvironment, playground,
  qa, DeploymentReadiness, PersistenceMode, is_postgres, is_live, requires_jira_write,
}

pub record ProjectSuite : Type 0 where
  pub id : String
  pub cases : List String

-- `configured` is the field of `authenticatedIdentity`.
pub record PilotProjectTestStatus : Type 0 where
  pub project_id : String
  pub configured : Bool
  pub suites : List ProjectSuite

pub record PilotPolicyStatus : Type 0 where
  pub configured : Bool
  pub mode : String
  pub healthy : Bool
  pub connector_count : ℕ
  pub fail_closed : Bool

pub record PilotValidationCheck : Type 0 where
  pub id : String
  pub ok : Bool
  pub required : Bool
  pub message : String
  pub project_id : Option String

-- `PersistenceStatus` of platform/runtime-persistence.ts, the part that is read.
pub record PersistenceStatus : Type 0 where
  pub mode : PersistenceMode
  pub shared : Bool

pub record PilotInput : Type 0 where
  pub instance_id : String
  pub identity : RequestIdentity
  pub deployment : DeploymentReadiness
  pub integrations : QaIntegrationStatus
  pub project_tests : List PilotProjectTestStatus
  pub persistence : PersistenceStatus
  pub policy : PilotPolicyStatus

pub record PilotIdentity : Type 0 where
  pub source : IdentitySource
  pub tenant_id : String
  pub project_ids : List String

pub record PilotValidationResult : Type 0 where
  pub ready : Bool
  pub instance_id : String
  pub target_projects : List String
  pub required_environments : List TargetEnvironment
  pub expected_replicas : ℕ
  pub identity : PilotIdentity
  pub persistence : PersistenceStatus
  pub policy : PilotPolicyStatus
  pub deployment : DeploymentReadiness
  pub checks : List PilotValidationCheck

-- `csv(value, fallback)`
unfoldable pub csv_or : Option String → String → List String
unfolding csv
csv_or value fallback = csv (some (or_text (trimmed value) fallback))

-- `[...new Set(values)]`, by a test of equality
unfoldable pub distinct {ℓ} : {A : Type ℓ} → (A → A → Bool) → List A → List A
distinct eq [] = []
distinct eq (x ∷ xs) = x ∷ keep (λ y. not (eq x y)) (distinct eq xs)

unfoldable pub pilot_target_projects : Process → List String
unfolding csv_or distinct
pilot_target_projects p = distinct (λ a b. a == b) (csv_or (p.env "BM_PILOT_PROJECT_IDS") "PCC")

abbrev pub target_eq : TargetEnvironment → TargetEnvironment → Bool
target_eq playground playground = true
target_eq qa qa = true
target_eq _ _ = false

abbrev target_name : TargetEnvironment → String
target_name playground = "playground"
target_name qa = "qa"

-- The items that name an environment.
abbrev pub environments_of : List String → List TargetEnvironment
environments_of [] = []
environments_of (x ∷ xs) =
    if x == "playground"
    then playground ∷ environments_of xs
    else if x == "qa"
    then qa ∷ environments_of xs
    else environments_of xs

abbrev or_qa : List TargetEnvironment → List TargetEnvironment
or_qa [] = qa ∷ []
or_qa (x ∷ xs) = distinct target_eq (x ∷ xs)

unfoldable pub pilot_required_environments : Process → List TargetEnvironment
unfolding csv_or distinct
pilot_required_environments p =
    or_qa (environments_of (csv_or (p.env "BM_PILOT_REQUIRED_ENVIRONMENTS") "playground,qa"))

-- A finite number that `Math.round` has made whole.
pub data Rounded : Type 0 where
  natural : ℕ → Rounded
  negative : Rounded

-- `boundedInteger`, at a value that is rounded if it is finite
unfoldable pub bounded_integer : Option Rounded → ℕ → ℕ → ℕ → ℕ
bounded_integer none fallback low high = fallback
bounded_integer (some negative) fallback low high = low
bounded_integer (some (natural n)) fallback low high =
    let capped = if leb n high then n else high in if leb low capped then capped else low

-- `round` is `Math.round(Number(value))` where that is finite.
unfoldable pub pilot_expected_replicas : Process → (Option String → Option Rounded) → ℕ
unfolding bounded_integer
pilot_expected_replicas p round =
    bounded_integer (round (p.env "BM_PILOT_EXPECTED_REPLICAS")) 2 1 20

abbrev pub is_gateway : IdentitySource → Bool
is_gateway IdentitySource.trusted_headers = true
is_gateway IdentitySource.local_dev = false

-- `(projects[project] ?? []).length > 0`; a member of `Object.prototype` has a length of its own.
abbrev pub repository_count : Looked (List BitbucketRepositoryRef) → ℕ
repository_count undefined_value = 0
repository_count (own_value repositories) = length repositories
repository_count (inherited_value n) = n

module _ (p : Process) where
  abbrev base_check : String → Bool → Bool → String → String → PilotValidationCheck
  base_check id ok required good bad = record {
    id = id;
    ok = ok;
    required = required;
    message = if ok then good else bad;
    project_id = none;
  }

  abbrev pub is_central : PilotPolicyStatus → Bool
  is_central s = s.configured && s.mode == "opa" && s.healthy && s.fail_closed

  -- The checks on the whole deployment.
  abbrev pub pilot_checks : PilotInput → List PilotValidationCheck
  pilot_checks input =
      base_check "deployment-ready" input.deployment.ready true
        "Deployment readiness gate is green." "Deployment readiness gate is not green."
      ∷ base_check "trusted-gateway-identity" (is_gateway input.identity.source) true
          "Request identity was injected by the trusted gateway."
          "Phase 7 validation must run through trusted gateway identity."
      ∷ base_check "shared-persistence"
          (input.persistence.shared && is_postgres input.persistence.mode) true
          "Shared Postgres + private Supabase persistence is active."
          "Phase 7 requires shared Postgres + private Supabase persistence."
      ∷ base_check "opa-central-policy" (is_central input.policy) true
          "OPA centralized policy is healthy and fail-closed."
          "Phase 7 requires healthy fail-closed OPA centralized policy."
      ∷ base_check "approved-connector-registry" (ltb 0 input.policy.connector_count) true
          (concat (
            p.decimal input.policy.connector_count
            ∷ " approved/pilot connector definition(s) loaded."
            ∷ []))
          "Approved connector registry is empty or unavailable."
      ∷ base_check "jira-read-live" (is_live input.integrations.jira.mode) true
          "Jira read integration is live." "Phase 7 requires live Jira reads."
      ∷ base_check "jira-write-live" (is_live input.integrations.jira.write_mode)
          (requires_jira_write p) "Governed Jira write integration is live."
          (if requires_jira_write p
            then "Phase 7 is configured to require governed Jira writes."
            else "Governed Jira writes are optional for this pilot rollout.")
      ∷ []

  abbrev pub same_project : String → String → Bool
  same_project a b = p.lower a == p.lower b

  -- The required environments that no target of the project is in.
  unfoldable pub missing_environments :
      List TargetEnvironment → List PlaywrightTargetRef → String → List TargetEnvironment
  missing_environments required targets project =
      keep
        (λ e.
          not (any (λ t. same_project t.project_id project && target_eq t.environment e) targets))
        required

  abbrev count_cases : List ProjectSuite → ℕ
  count_cases [] = 0
  count_cases (s ∷ ss) = length s.cases + count_cases ss

  abbrev pub profile_of : PilotInput → String → Option PilotProjectTestStatus
  profile_of input project = find (λ t. same_project t.project_id project) input.project_tests

  abbrev pub test_cases : Option PilotProjectTestStatus → ℕ
  test_cases none = 0
  test_cases (some t) = count_cases t.suites

  abbrev pub is_configured : Option PilotProjectTestStatus → Bool
  is_configured none = false
  is_configured (some t) = t.configured

  abbrev pub has_repositories : PilotInput → String → Bool
  has_repositories input project =
      ltb 0 (repository_count (look project input.integrations.bitbucket.projects))
      && is_live input.integrations.bitbucket.mode

  abbrev project_check : String → String → Bool → String → String → PilotValidationCheck
  project_check id project ok good bad = record {
    id = id;
    ok = ok;
    required = true;
    message = if ok then good else bad;
    project_id = some project;
  }

  -- The checks on one project.
  unfoldable pub project_checks :
      PilotInput → List TargetEnvironment → String → List PilotValidationCheck
  unfolding can_access_project missing_environments concat join
  project_checks input required project =
      let profile = profile_of input project in
      let missing = missing_environments required input.integrations.playwright.targets project in
      project_check "project-authorized" project (can_access_project p input.identity project)
        (concat ("Pilot identity is authorized for " ∷ project ∷ "." ∷ []))
        (concat ("Pilot identity is not authorized for " ∷ project ∷ "." ∷ []))
      ∷ project_check "bitbucket-project-live" project (has_repositories input project)
          (concat ("Bitbucket repository mapping is live for " ∷ project ∷ "." ∷ []))
          (concat
            ("Phase 7 requires a live Bitbucket repository mapping for " ∷ project ∷ "." ∷ []))
      ∷ project_check "playwright-project-targets" project
          (is_live input.integrations.playwright.mode && nat_eq (length missing) 0)
          (concat (
            "Playwright targets are configured for "
            ∷ project
            ∷ ": "
            ∷ join ", " (map target_name required)
            ∷ "."
            ∷ []))
          (concat (
            "Missing "
            ∷ project
            ∷ " Playwright target(s): "
            ∷ or_text (some (join ", " (map target_name missing))) "live worker"
            ∷ "."
            ∷ []))
      ∷ project_check "authenticated-project-tests" project
          (is_configured profile && ltb 0 (test_cases profile))
          (concat (
            p.decimal (test_cases profile)
            ∷ " authenticated project test case(s) are available for "
            ∷ project
            ∷ "."
            ∷ []))
          (concat ("Phase 7 requires authenticated project tests for " ∷ project ∷ "." ∷ []))
      ∷ []

  -- The loop over the projects.
  unfoldable pub all_project_checks :
      PilotInput → List TargetEnvironment → List String → List PilotValidationCheck
  unfolding project_checks
  all_project_checks input required [] = []
  all_project_checks input required (project ∷ projects) =
      project_checks input required project ++ all_project_checks input required projects

  abbrev pub is_passed : PilotValidationCheck → Bool
  is_passed c = not c.required || c.ok

  -- `buildPilotValidation`
  unfoldable pub build_pilot_validation :
      (Option String → Option Rounded) → PilotInput → PilotValidationResult
  unfolding all_project_checks pilot_target_projects pilot_required_environments
      pilot_expected_replicas
  build_pilot_validation round input =
      let projects = pilot_target_projects p in
      let required = pilot_required_environments p in
      let checks = pilot_checks input ++ all_project_checks input required projects in
      record {
        ready = all is_passed checks;
        instance_id = input.instance_id;
        target_projects = projects;
        required_environments = required;
        expected_replicas = pilot_expected_replicas p round;
        identity = record {
          source = input.identity.source;
          tenant_id = input.identity.tenant_id;
          project_ids = input.identity.project_ids;
        };
        persistence = input.persistence;
        policy = input.policy;
        deployment = input.deployment;
        checks = checks;
      }
