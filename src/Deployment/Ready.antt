-- ===== src/Deployment/Ready.antt =====
-- What a deployment in pilot mode needs to be ready.
use bm_agents_world.Common.{
  true, ◌≡◌, refl, ◌↔◌, length, All, ◌++◌, all-All, All-all, met, meets, both_true, and_true,
}
use bm_agents_world.Environment.{Process, env_is}
use bm_agents_world.Deployment.Conditions.{
  IsGuarded, IsShared, IsPilotReady, is_live_same, live_is, ltb_zero, ltb_pos, is_shared_iff,
  guard_known, key_iff, kept_iff, IsSaid, IsKeptLocally,
}
use bm_agents_world.Deployment.{
  QaIntegrationStatus, ReadinessOptions, Paths, is_pilot, state_ready, artifacts_ready,
  build_deployment_readiness, is_met, policy_configured, policy_healthy, registry_ready,
  platform_checks, integration_checks,
}

module _ (p : Process) (paths : Paths) where
  guards :
      (o : ReadinessOptions) (g : IsGuarded o)
      → (policy_configured p paths o ≡ true)
        × (policy_healthy p paths o ≡ true)
        × (registry_ready p paths o ≡ true)
  guards o g = (
    rw (g.given, g.configured, g.mode, g.fail_closed) refl,
    rw (g.given, g.healthy) refl,
    rw (g.given, g.registry) refl,
  )

  state_kept :
      (o : ReadinessOptions)
      → state_ready p paths o ≡ true
      → (IsShared o → IsSaid o (λ s. s.state_ready))
        × ((IsShared o → ⊥)
            → IsKeptLocally p paths "BM_STATE_DB_PATH" o.state_path
                (λ s. paths.dirname (paths.resolve s)))
  unfolding state_ready
  state_kept o h =
      (kept_iff p paths "BM_STATE_DB_PATH" (λ s. paths.dirname (paths.resolve s)) o
          (λ s. s.state_ready) o.state_path).0
        h

  artifacts_kept :
      (o : ReadinessOptions)
      → artifacts_ready p paths o ≡ true
      → (IsShared o → IsSaid o (λ s. s.artifacts_ready))
        × ((IsShared o → ⊥)
            → IsKeptLocally p paths "BM_ARTIFACT_ROOT" o.artifact_root paths.resolve)
  unfolding artifacts_ready
  artifacts_kept o h =
      (kept_iff p paths "BM_ARTIFACT_ROOT" paths.resolve o (λ s. s.artifacts_ready)
          o.artifact_root).0
        h

  keeps :
      (i : QaIntegrationStatus) (o : ReadinessOptions)
      → IsPilotReady p paths i o
      → (state_ready p paths o ≡ true) × (artifacts_ready p paths o ≡ true)
  unfolding state_ready artifacts_ready
  keeps i o r = (
    (kept_iff p paths "BM_STATE_DB_PATH" (λ s. paths.dirname (paths.resolve s)) o
          (λ s. s.state_ready) o.state_path).1
        (r.shared_state, r.local_state),
    (kept_iff p paths "BM_ARTIFACT_ROOT" paths.resolve o (λ s. s.artifacts_ready) o.artifact_root).1
        (r.shared_artifacts, r.local_artifacts),
  )

  checks_ready :
      (i : QaIntegrationStatus) (o : ReadinessOptions)
      → is_pilot p ≡ true
      → All
          (λ c. is_met p paths c ≡ true)
          (platform_checks p paths o ++ integration_checks p paths i)
      → IsPilotReady p paths i o
  checks_ready i o pilot h = record {
    packs = ltb_zero o.pack_count h.0;
    credential = (key_iff p).0 (met _ _ h.1.0 pilot);
    identity = met _ _ h.1.1.0 pilot;
    guarded = λ s.
        let shared = and_true _ _ pilot ((is_shared_iff o).1 s) in
        guard_known o o.policy refl (met _ _ h.1.1.1.0 shared) (met _ _ h.1.1.1.1.0 shared)
          (met _ _ h.1.1.1.1.1.0 shared);
    shared_state = λ s. (state_kept o (met _ _ h.1.1.1.1.1.1.0 pilot)).0 s;
    local_state = λ s. (state_kept o (met _ _ h.1.1.1.1.1.1.0 pilot)).1 s;
    shared_artifacts = λ s. (artifacts_kept o (met _ _ h.1.1.1.1.1.1.1.0 pilot)).0 s;
    local_artifacts = λ s. (artifacts_kept o (met _ _ h.1.1.1.1.1.1.1.0 pilot)).1 s;
    jira = is_live_same i.jira.mode (met _ _ h.1.1.1.1.1.1.1.1.0 pilot);
    bitbucket = is_live_same i.bitbucket.mode (met _ _ h.1.1.1.1.1.1.1.1.1.0 pilot);
    playwright =
        is_live_same i.playwright.mode (both_true _ _ (met _ _ h.1.1.1.1.1.1.1.1.1.1.0 pilot)).0;
    targets =
        ltb_zero (length i.playwright.targets)
          (both_true _ _ (met _ _ h.1.1.1.1.1.1.1.1.1.1.0 pilot)).1;
    jira_write = λ w.
        is_live_same i.jira.write_mode (met _ _ h.1.1.1.1.1.1.1.1.1.1.1.0 (and_true _ _ pilot w));
  }

  -- In pilot mode a deployment is reported as ready exactly when packs are loaded; the key of the
  -- model's provider is set, if that is Anthropic, Google or OpenAI; identities come from the
  -- gateway; reads of Jira and Bitbucket and a worker with a target for Playwright are live, and so
  -- are writes to Jira where they are required; on shared persistence, which is Postgres or said to
  -- be shared, state and artifacts are said to be ready and the central policy is a healthy OPA that
  -- fails closed, with its registry of connectors; and on local persistence the paths of the state
  -- and of the artifacts are set and absolute in the environment, with directories to write to.
  pub build_deployment_readiness-IsPilotReady :
      (i : QaIntegrationStatus) (o : ReadinessOptions)
      → env_is p "BM_DEPLOYMENT_MODE" "pilot" ≡ true
      → ((build_deployment_readiness p paths i o).ready ≡ true) ↔ IsPilotReady p paths i o
  unfolding build_deployment_readiness
  build_deployment_readiness-IsPilotReady i o pilot = (
    (λ h.
        let checks = platform_checks p paths o ++ integration_checks p paths i in
        checks_ready i o pilot (all-All (is_met p paths) checks h)),
    (λ r. All-all (is_met p paths) (platform_checks p paths o ++ integration_checks p paths i) (
      ltb_pos o.pack_count r.packs,
      (
        meets _ _ (λ e. (key_iff p).1 r.credential),
        (
          meets _ _ (λ e. r.identity),
          (
            meets _ _ (λ e. (guards o (r.guarded ((is_shared_iff o).0 (both_true _ _ e).1))).0),
            (
              meets _ _ (λ e. (guards o (r.guarded ((is_shared_iff o).0 (both_true _ _ e).1))).1),
              (
                meets _ _ (λ e. (guards o (r.guarded ((is_shared_iff o).0 (both_true _ _ e).1))).2),
                (
                  meets _ _ (λ e. (keeps i o r).0),
                  (
                    meets _ _ (λ e. (keeps i o r).1),
                    (
                      meets _ _ (λ e. live_is r.jira),
                      (
                        meets _ _ (λ e. live_is r.bitbucket),
                        (
                          meets _ _ (λ e.
                              and_true _ _ (live_is r.playwright)
                                (ltb_pos (length i.playwright.targets) r.targets)),
                          (meets _ _ (λ e. live_is (r.jira_write (both_true _ _ e).1)), tt),
                        ),
                      ),
                    ),
                  ),
                ),
              ),
            ),
          ),
        ),
      ),
    )),
  )
