-- ===== src/Deployment/Conditions.antt =====
-- The conditions of a deployment in pilot mode, written out, and that the tests of the code on the
-- persistence, the paths, the model's key and the policy decide them.
use bm_agents_world.Common.{
  ℕ, ◌≤◌, String, Bool, true, false, ◌&&◌, ◌||◌, ◌≡◌, refl, sym, ◌∙◌, ◌↔◌, Option, none, some,
  length, ltb, arith, both_true, eq_iff, Bool-cases, Option-cases, inl, inr, truth_apart,
  if◌then◌else◌,
}
use bm_agents_world.Environment.{
  Process, is_text, is_empty, trim, trimmed, or_text, truthy, env_is, boolean_env,
}
use bm_agents_world.Capability.{AdapterMode, live}
use bm_agents_world.Deployment.{
  QaIntegrationStatus, ReadinessOptions, PolicyReadiness, PersistenceReadiness, PersistenceMode,
  postgres_supabase, sqlite_filesystem, Paths, is_live, is_true, asks, is_postgres, is_shared,
  starts_with, local_ready, when_given, model_credential_configured,
}

-- A central policy that is on, fails closed, answers, and has its registry of connectors.
pub record IsGuarded (o : ReadinessOptions) : Type 0 where
  pub policy : PolicyReadiness
  pub given : o.policy ≡ some policy
  pub configured : policy.configured ≡ some true
  pub mode : policy.mode ≡ some "opa"
  pub fail_closed : policy.fail_closed ≡ some true
  pub healthy : policy.healthy ≡ some true
  pub registry : policy.connector_registry_ready ≡ some true

-- Persistence is said to be shared, or it is Postgres.
pub data IsShared (o : ReadinessOptions) : Type 0 where
  said_shared :
      (s : PersistenceReadiness) → o.persistence ≡ some s → s.shared ≡ some true → IsShared o
  on_postgres :
      (s : PersistenceReadiness)
      → o.persistence ≡ some s
      → s.mode ≡ some postgres_supabase
      → IsShared o

-- The environment has the variable, and not blank.
pub record IsGiven (p : Process) (name : String) : Type 0 where
  pub value : String
  pub found : p.env name ≡ some value
  pub not_blank : is_empty (trim value) ≡ false

-- The model that is configured, as it is compared.
abbrev pub model_of : Process → String
model_of p = p.lower (trim (or_text (p.env "AI_MODEL") "openai:gpt-5.4-mini"))

-- A model of Anthropic, Google or OpenAI has the key of its provider. Other models need none.
pub record HasModelKey (p : Process) : Type 0 where
  pub anthropic : starts_with (model_of p) "anthropic:" ≡ true → IsGiven p "ANTHROPIC_API_KEY"
  pub google :
      starts_with (model_of p) "anthropic:" ≡ false
      → starts_with (model_of p) "google:" ≡ true
      → IsGiven p "GOOGLE_GENERATIVE_AI_API_KEY"
  pub openai :
      starts_with (model_of p) "anthropic:" ≡ false
      → starts_with (model_of p) "google:" ≡ false
      → starts_with (model_of p) "openai:" ≡ true
      → IsGiven p "OPENAI_API_KEY"

-- The variable holds an absolute path, and the deployment's own path `kept` has a directory that
-- can be written.
pub record IsKeptLocally (p : Process) (paths : Paths) (name : String) (kept : Option String)
    (directory_of : String → String) : Type 0 where
  pub set_path : IsGiven p name
  pub absolute : paths.is_absolute (trim set_path.value) ≡ true
  pub path : String
  pub given : kept ≡ some path
  pub not_empty : is_empty path ≡ false
  pub directory : is_empty (directory_of path) ≡ false
  pub writable : paths.check_writable_directory (directory_of path) ≡ true

-- What the readiness of the persistence says, where it is shared.
abbrev pub IsSaid : ReadinessOptions → (PersistenceReadiness → Option Bool) → Type 0
IsSaid o field = (s : PersistenceReadiness) × ((o.persistence ≡ some s) × (field s ≡ some true))

pub record IsPilotReady (p : Process) (paths : Paths) (i : QaIntegrationStatus)
    (o : ReadinessOptions) : Type 0 where
  pub packs : 1 ≤ o.pack_count
  pub credential : HasModelKey p
  pub identity : env_is p "BM_IDENTITY_MODE" "trusted-headers" ≡ true
  pub guarded : IsShared o → IsGuarded o
  pub shared_state : IsShared o → IsSaid o (λ s. s.state_ready)
  pub local_state :
      (IsShared o → ⊥)
      → IsKeptLocally p paths "BM_STATE_DB_PATH" o.state_path (λ s. paths.dirname (paths.resolve s))
  pub shared_artifacts : IsShared o → IsSaid o (λ s. s.artifacts_ready)
  pub local_artifacts :
      (IsShared o → ⊥) → IsKeptLocally p paths "BM_ARTIFACT_ROOT" o.artifact_root paths.resolve
  pub jira : i.jira.mode ≡ live
  pub bitbucket : i.bitbucket.mode ≡ live
  pub playwright : i.playwright.mode ≡ live
  pub targets : 1 ≤ length i.playwright.targets
  pub jira_write :
      boolean_env p "BM_PILOT_REQUIRE_JIRA_WRITE" false ≡ true → i.jira.write_mode ≡ live

pub is_live_same : (m : AdapterMode) → is_live m ≡ true → m ≡ live
is_live_same live h = refl
is_live_same _ h = absurd (cc)

pub live_is : {m : AdapterMode} → m ≡ live → is_live m ≡ true
live_is h = rw h refl

is_true_same : (o : Option Bool) → is_true o ≡ true → o ≡ some true
is_true_same none h = absurd (cc)
is_true_same (some true) h = refl
is_true_same (some false) h = absurd (cc)

is_text_same : (o : Option String) (t : String) → is_text o t ≡ true → o ≡ some t
is_text_same none t h = absurd (cc)
is_text_same (some s) t h = cc ((eq_iff s t).0 h)

pub ltb_zero : (n : ℕ) → ltb 0 n ≡ true → 1 ≤ n
ltb_zero n h = ground arith

pub ltb_pos : (n : ℕ) → 1 ≤ n → ltb 0 n ≡ true
ltb_pos n h = ground arith

pub is_shared_iff : (o : ReadinessOptions) → (is_shared o ≡ true) ↔ IsShared o
is_shared_iff o = (to o.persistence refl, from)
  where
    postgres : (m : Option PersistenceMode) → asks m is_postgres ≡ true → m ≡ some postgres_supabase
    postgres none h = absurd (truth_apart (sym h))
    postgres (some postgres_supabase) h = refl
    postgres (some sqlite_filesystem) h = absurd (truth_apart (sym h))

    to :
        (s : Option PersistenceReadiness)
        → o.persistence ≡ s
        → (asks s (λ s. is_true s.shared) || asks s (λ s. asks s.mode is_postgres)) ≡ true
        → IsShared o
    to none e h = absurd (truth_apart (sym h))
    to (some s) e h = elim (Bool-cases (is_true s.shared)) [
      | inl f ↦ said_shared s e (is_true_same s.shared f)
      | inr f ↦ on_postgres s e (postgres s.mode (rw f at h))
    ]

    or_true : (b : Bool) → (b || true) ≡ true
    or_true true = refl
    or_true false = refl

    from : IsShared o → is_shared o ≡ true
    from (said_shared s e f) = rw (e, f) refl
    from (on_postgres s e f) = rw (e, f) (or_true (is_true s.shared))

is_shared-no : (o : ReadinessOptions) → is_shared o ≡ false → IsShared o → ⊥
is_shared-no o h s = truth_apart (sym ((is_shared_iff o).1 s) ∙ h)

pub guard_known :
    (o : ReadinessOptions) (s : Option PolicyReadiness)
    → o.policy ≡ s
    → asks s (λ s. is_true s.configured && is_text s.mode "opa" && is_true s.fail_closed) ≡ true
    → asks s (λ s. is_true s.healthy) ≡ true
    → asks s (λ s. is_true s.connector_registry_ready) ≡ true
    → IsGuarded o
guard_known o none e c h r = absurd (cc)
guard_known o (some s) e c h r =
    let (a, f) =
      both_true (is_true s.configured && is_text s.mode "opa") (is_true s.fail_closed) c in
    let (k, m) = both_true (is_true s.configured) (is_text s.mode "opa") a in
    record {
      policy = s;
      given = e;
      configured = is_true_same s.configured k;
      mode = is_text_same s.mode "opa" m;
      fail_closed = is_true_same s.fail_closed f;
      healthy = is_true_same s.healthy h;
      registry = is_true_same s.connector_registry_ready r;
    }

module _ (p : Process) where
  pub set_iff : (name : String) → (truthy (trimmed (p.env name)) ≡ true) ↔ IsGiven p name
  set_iff name = (to (p.env name) refl, λ s. rw (s.found, s.not_blank) refl)
    where
      to : (v : Option String) → p.env name ≡ v → truthy (trimmed v) ≡ true → IsGiven p name
      to none e h = absurd (truth_apart (sym h))
      to (some v) e h = record { value = v; found = e; not_blank = ground arith }

  pub key_iff : (model_credential_configured p ≡ true) ↔ HasModelKey p
  unfolding model_credential_configured
  key_iff = (to, from)
    where
      to : model_credential_configured p ≡ true → HasModelKey p
      to h = record {
        anthropic = λ a. (set_iff "ANTHROPIC_API_KEY").0 (ground arith);
        google = λ a g. (set_iff "GOOGLE_GENERATIVE_AI_API_KEY").0 (ground arith);
        openai = λ a g o. (set_iff "OPENAI_API_KEY").0 (ground arith);
      }

      from : HasModelKey p → model_credential_configured p ≡ true
      from k = elim (Bool-cases (starts_with (model_of p) "anthropic:")) [
        | inl a ↦ rw a ((set_iff "ANTHROPIC_API_KEY").1 (k.anthropic a))
        | inr a ↦ elim (Bool-cases (starts_with (model_of p) "google:")) [
          | inl g ↦ rw (a, g) ((set_iff "GOOGLE_GENERATIVE_AI_API_KEY").1 (k.google a g))
          | inr g ↦ elim (Bool-cases (starts_with (model_of p) "openai:")) [
            | inl o ↦ rw (a, g, o) ((set_iff "OPENAI_API_KEY").1 (k.openai a g o))
            | inr o ↦ rw (a, g, o) refl
          ]
        ]
      ]

said :
    (o : ReadinessOptions) (field : PersistenceReadiness → Option Bool)
    → asks o.persistence (λ s. is_true (field s)) ≡ true
    → IsSaid o field
said o field h = from o.persistence refl h
  where
    from :
        (s : Option PersistenceReadiness)
        → o.persistence ≡ s
        → asks s (λ s. is_true (field s)) ≡ true
        → IsSaid o field
    from none e k = absurd (truth_apart (sym k))
    from (some s) e k = (s, (e, is_true_same (field s) k))

said_asks :
    (o : ReadinessOptions) (field : PersistenceReadiness → Option Bool)
    → IsSaid o field
    → asks o.persistence (λ s. is_true (field s)) ≡ true
said_asks o field (s, (e, f)) = rw (e, f) refl

module _ (p : Process) (paths : Paths) (name : String) (directory_of : String → String) where
  -- The path that `local_ready` tests.
  abbrev tested : Option String → Bool
  tested kept = local_ready paths (trimmed (p.env name)) (when_given kept directory_of)

  kept_locally :
      (kept : Option String) → tested kept ≡ true → IsKeptLocally p paths name kept directory_of
  kept_locally kept h = elim (Option-cases (p.env name)) [
    | inl e ↦ absurd (truth_apart (sym (rw e at h)))
    | inr (v, e) ↦ at_value v e kept (rw e at h)
  ]
    where
      at_value :
          (v : String)
          → p.env name ≡ some v
          → (kept : Option String)
          → local_ready paths (some (trim v)) (when_given kept directory_of) ≡ true
          → IsKeptLocally p paths name kept directory_of
      at_value v e none k = absurd (ground arith)
      at_value v e (some path) k = elim (Bool-cases (is_empty path)) [
        | inl f ↦ absurd (ground arith)
        | inr f ↦ record {
          set_path = record { value = v; found = e; not_blank = ground arith };
          absolute = ground arith;
          path = path;
          given = refl;
          not_empty = f;
          directory = ground arith;
          writable = ground arith;
        }
      ]

  locally_kept :
      (kept : Option String) → IsKeptLocally p paths name kept directory_of → tested kept ≡ true
  locally_kept kept k =
      rw
        (
          k.set_path.found, k.given, k.not_empty, k.set_path.not_blank, k.absolute, k.directory,
          k.writable,
        )
        refl

  -- Where persistence is shared its readiness says so, and otherwise a local path is tested.
  pub kept_iff :
      (o : ReadinessOptions) (field : PersistenceReadiness → Option Bool) (kept : Option String)
      → ((if is_shared o then asks o.persistence (λ s. is_true (field s)) else tested kept) ≡ true)
        ↔ ((IsShared o → IsSaid o field)
            × ((IsShared o → ⊥) → IsKeptLocally p paths name kept directory_of))
  kept_iff o field kept = elim (Bool-cases (is_shared o)) [
    | inl f ↦ (
      λ h. (λ s. said o field (rw f at h), λ apart. absurd (apart ((is_shared_iff o).0 f))),
      λ k. rw f (said_asks o field (k.0 ((is_shared_iff o).0 f))),
    )
    | inr f ↦ (
      λ h. (λ s. absurd (is_shared-no o f s), λ apart. kept_locally kept (rw f at h)),
      λ k. rw f (locally_kept kept (k.1 (is_shared-no o f))),
    )
  ]
