-- ===== src/Deployment.antt =====
-- apps/agent-window/src/server/platform/deployment-readiness.ts: whether a deployment may serve.
-- The types of the integrations are those of qa/qa-integration-config.ts.
pub mod Conditions
pub mod Ready
pub mod Pilot
use Prim.Native.Char.{code}
use bm_agents_world.Common.{
  ℕ, String, nat_eq, Bool, true, false, not, ◌&&◌, ◌||◌, Option, none, some, List, [], ◌∷◌, ◌++◌,
  length, all, concat, ltb, if◌then◌else◌, ◌==◌,
}
use bm_agents_world.Common.Dict.{Dict}
use bm_agents_world.Environment.{
  Process, trim, or_text, trimmed, is_text, lowered, is_empty, truthy, env_is, boolean_env,
}
use bm_agents_world.Capability.{AdapterMode, mock, live}

pub data JiraAuthMode : Type 0 where
  basic_token bearer : JiraAuthMode

pub record JiraReadConfiguration : Type 0 where
  pub mode : AdapterMode
  pub base_url : Option String
  pub auth_mode : Option JiraAuthMode
  pub email_configured : Bool
  pub token_configured : Bool
  pub write_enabled : Bool
  pub write_mode : AdapterMode

pub record BitbucketRepositoryRef : Type 0 where
  pub label : String
  pub workspace : String
  pub repo_slug : String

pub record BitbucketReadConfiguration : Type 0 where
  pub mode : AdapterMode
  pub base_url : String
  pub token_configured : Bool
  pub projects : Dict (List BitbucketRepositoryRef)

pub data TargetEnvironment : Type 0 where
  playground qa : TargetEnvironment

pub record PlaywrightTargetRef : Type 0 where
  pub project_id : String
  pub environment : TargetEnvironment
  pub url : String

-- The browser is always chromium.
pub record PlaywrightConfiguration : Type 0 where
  pub mode : AdapterMode
  pub enabled : Bool
  pub timeout_ms : ℕ
  pub targets : List PlaywrightTargetRef

pub record QaIntegrationStatus : Type 0 where
  pub jira : JiraReadConfiguration
  pub bitbucket : BitbucketReadConfiguration
  pub playwright : PlaywrightConfiguration

abbrev pub is_live : AdapterMode → Bool
is_live live = true
is_live mock = false

pub record ReadinessCheck : Type 0 where
  pub id : String
  pub ok : Bool
  pub required : Bool
  pub message : String

pub data DeploymentMode : Type 0 where
  development pilot : DeploymentMode

pub record DeploymentReadiness : Type 0 where
  pub ready : Bool
  pub mode : DeploymentMode
  pub checks : List ReadinessCheck

pub data PersistenceMode : Type 0 where
  sqlite_filesystem postgres_supabase : PersistenceMode

pub record PersistenceReadiness : Type 0 where
  pub mode : Option PersistenceMode
  pub shared : Option Bool
  pub state_ready : Option Bool
  pub artifacts_ready : Option Bool

pub record PolicyReadiness : Type 0 where
  pub configured : Option Bool
  pub mode : Option String
  pub healthy : Option Bool
  pub connector_registry_ready : Option Bool
  pub fail_closed : Option Bool

pub record ReadinessOptions : Type 0 where
  pub state_path : Option String
  pub artifact_root : Option String
  pub pack_count : ℕ
  pub persistence : Option PersistenceReadiness
  pub policy : Option PolicyReadiness

-- `node:path`, and whether a directory can be made and written.
pub record Paths : Type 0 where
  pub is_absolute : String → Bool
  pub resolve : String → String
  pub dirname : String → String
  pub check_writable_directory : String → Bool

-- `value === true`, and `Boolean(value)`
abbrev pub is_true : Option Bool → Bool
is_true none = false
is_true (some b) = b

abbrev pub asks {ℓ} : {A : Type ℓ} → Option A → (A → Bool) → Bool
asks none f = false
asks (some a) f = f a

abbrev pub is_postgres : PersistenceMode → Bool
is_postgres postgres_supabase = true
is_postgres sqlite_filesystem = false

-- `startsWith`
abbrev starts_with : String → String → Bool
starts_with s String.[] = true
starts_with String.[] (String.◌∷◌ d t) = false
starts_with (String.◌∷◌ c s) (String.◌∷◌ d t) = nat_eq (code c) (code d) && starts_with s t

module _ (p : Process) where
  -- `modelCredentialConfigured`
  unfoldable pub model_credential_configured : Bool
  unfolding trim
  model_credential_configured =
      let model = p.lower (trim (or_text (p.env "AI_MODEL") "openai:gpt-5.4-mini")) in
      if starts_with model "anthropic:"
      then truthy (trimmed (p.env "ANTHROPIC_API_KEY"))
      else if starts_with model "google:"
      then truthy (trimmed (p.env "GOOGLE_GENERATIVE_AI_API_KEY"))
      else if starts_with model "openai:"
      then truthy (trimmed (p.env "OPENAI_API_KEY"))
      else true

  abbrev pub is_pilot : Bool
  is_pilot = env_is p "BM_DEPLOYMENT_MODE" "pilot"

  abbrev pub requires_jira_write : Bool
  requires_jira_write = boolean_env p "BM_PILOT_REQUIRE_JIRA_WRITE" false

  abbrev pub trusted_identity_ready : Bool
  trusted_identity_ready = env_is p "BM_IDENTITY_MODE" "trusted-headers"

abbrev pub is_shared : ReadinessOptions → Bool
is_shared o =
    asks o.persistence (λ s. is_true s.shared) || asks o.persistence (λ s. asks s.mode is_postgres)

-- An absolute path in the environment, and a directory that can be written.
abbrev pub local_ready : Paths → Option String → Option String → Bool
local_ready paths configured directory =
    truthy configured
    && asks configured paths.is_absolute
    && truthy directory
    && asks directory paths.check_writable_directory

-- `x ? f(x) : undefined`
abbrev pub when_given : Option String → (String → String) → Option String
when_given none f = none
when_given (some s) f = if is_empty s then none else some (f s)

module _ (p : Process) (paths : Paths) where
  unfoldable pub state_ready : ReadinessOptions → Bool
  unfolding trim
  state_ready o =
      if is_shared o
      then asks o.persistence (λ s. is_true s.state_ready)
      else local_ready paths (trimmed (p.env "BM_STATE_DB_PATH"))
          (when_given o.state_path (λ s. paths.dirname (paths.resolve s)))

  unfoldable pub artifacts_ready : ReadinessOptions → Bool
  unfolding trim
  artifacts_ready o =
      if is_shared o
      then asks o.persistence (λ s. is_true s.artifacts_ready)
      else local_ready paths (trimmed (p.env "BM_ARTIFACT_ROOT"))
          (when_given o.artifact_root paths.resolve)

  abbrev pub policy_configured : ReadinessOptions → Bool
  policy_configured o =
      asks o.policy (λ s. is_true s.configured && is_text s.mode "opa" && is_true s.fail_closed)

  abbrev pub policy_healthy : ReadinessOptions → Bool
  policy_healthy o = asks o.policy (λ s. is_true s.healthy)

  abbrev pub registry_ready : ReadinessOptions → Bool
  registry_ready o = asks o.policy (λ s. is_true s.connector_registry_ready)

  abbrev pub has_targets : PlaywrightConfiguration → Bool
  has_targets c = is_live c.mode && ltb 0 (length c.targets)

  abbrev check : String → Bool → Bool → String → String → ReadinessCheck
  check id ok required good bad = record {
    id = id;
    ok = ok;
    required = required;
    message = if ok then good else bad;
  }

  -- The checks on what every deployment shares.
  abbrev pub platform_checks : ReadinessOptions → List ReadinessCheck
  platform_checks o =
      check "packs-loaded" (ltb 0 o.pack_count) true
        (concat (p.decimal o.pack_count ∷ " agent packs loaded." ∷ []))
        "No agent packs were loaded."
      ∷ check "model-credential" (model_credential_configured p) (is_pilot p)
          "Model provider credential is configured." "Model provider credential is not configured."
      ∷ check "trusted-identity" (trusted_identity_ready p) (is_pilot p)
          "Trusted gateway identity mode is enabled."
          "Pilot mode requires BM_IDENTITY_MODE=trusted-headers."
      ∷ check "central-policy-mode" (policy_configured o) (is_pilot p && is_shared o)
          "Shared pilot is configured for fail-closed OPA policy evaluation."
          "Shared pilot requires BM_POLICY_MODE=opa with fail-closed centralized policy."
      ∷ check "central-policy-health" (policy_healthy o) (is_pilot p && is_shared o)
          "OPA centralized policy service is healthy."
          "Shared pilot requires a healthy OPA policy service."
      ∷ check "approved-connector-registry" (registry_ready o) (is_pilot p && is_shared o)
          "Approved MCP/connector registry is loaded."
          "Shared pilot requires a readable non-empty approved connector registry."
      ∷ check (if is_shared o then "shared-postgres-state" else "persistent-state-path")
          (state_ready o) (is_pilot p)
          (if is_shared o
            then "Shared Postgres runtime state is reachable and schema-compatible."
            else "Persistent state directory is configured and writable.")
          (if is_shared o
            then "Pilot shared mode requires reachable schema-compatible Postgres runtime state."
            else "Pilot local mode requires an absolute writable BM_STATE_DB_PATH.")
      ∷ check (if is_shared o then "shared-artifact-storage" else "persistent-artifact-root")
          (artifacts_ready o) (is_pilot p)
          (if is_shared o
            then "Private shared artifact storage is reachable."
            else "Persistent artifact root is configured and writable.")
          (if is_shared o
            then "Pilot shared mode requires reachable private artifact storage."
            else "Pilot local mode requires an absolute writable BM_ARTIFACT_ROOT.")
      ∷ []

  -- The checks on the integrations.
  abbrev pub integration_checks : QaIntegrationStatus → List ReadinessCheck
  integration_checks i =
      check "jira-read-live" (is_live i.jira.mode) (is_pilot p) "Jira read adapter is live."
        "Pilot mode requires live Jira read configuration."
      ∷ check "bitbucket-read-live" (is_live i.bitbucket.mode) (is_pilot p)
          "Bitbucket read adapter is live." "Pilot mode requires live Bitbucket read configuration."
      ∷ check "playwright-live" (has_targets i.playwright) (is_pilot p)
          (concat
            (p.decimal (length i.playwright.targets) ∷ " Playwright target(s) configured." ∷ []))
          "Pilot mode requires at least one live Playwright target."
      ∷ check "jira-write" (is_live i.jira.write_mode) (is_pilot p && requires_jira_write p)
          "Governed Jira write adapter is live."
          (if requires_jira_write p
            then "BM_PILOT_REQUIRE_JIRA_WRITE=true requires live governed Jira write configuration."
            else "Jira write remains optional for the pilot.")
      ∷ []

  -- `!check.required || check.ok`
  abbrev pub is_met : ReadinessCheck → Bool
  is_met c = not c.required || c.ok

  -- `buildDeploymentReadiness`
  unfoldable pub build_deployment_readiness :
      QaIntegrationStatus → ReadinessOptions → DeploymentReadiness
  unfolding concat model_credential_configured state_ready artifacts_ready
  build_deployment_readiness i o =
      let checks = platform_checks o ++ integration_checks i in
      record {
        ready = all is_met checks;
        mode = if is_pilot p then DeploymentMode.pilot else DeploymentMode.development;
        checks = checks;
      }
