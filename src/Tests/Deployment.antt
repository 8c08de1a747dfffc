-- ===== src/Tests/Deployment.antt =====
-- A deployment in pilot mode that is ready, and a pilot on it.
use bm_agents_world.Common.{
  ◌≤◌, arith, true, false, ◌≡◌, ◌↔◌, refl, none, some, [], ◌∷◌, if◌then◌else◌, ◌==◌,
}
use bm_agents_world.Common.Dict.{get}
use bm_agents_world.Common.ObjectLiteral.{look}
use bm_agents_world.Environment.{Process, trim, csv, boolean_env}
use bm_agents_world.Identity.{IdentitySource}
use bm_agents_world.Capability.{live}
use bm_agents_world.Deployment.{
  QaIntegrationStatus, ReadinessOptions, Paths, PersistenceMode, TargetEnvironment, is_pilot,
  build_deployment_readiness,
}
use bm_agents_world.Deployment.Conditions.{IsPilotReady}
use bm_agents_world.Deployment.Ready.{build_deployment_readiness-IsPilotReady}
use bm_agents_world.Deployment.Pilot.{PilotInput, Rounded, bounded_integer, build_pilot_validation}
use bm_agents_world.Deployment.Pilot.Replicas.{bounded_integer_within}
use bm_agents_world.Deployment.Pilot.Gate.{IsPilotValid, build_pilot_validation-IsPilotValid}
use bm_agents_world.Tests.Samples.{tally}

abbrev pilot_process : Process
pilot_process = record {
  env = λ name.
      if name == "BM_DEPLOYMENT_MODE"
      then some "pilot"
      else if name == "BM_IDENTITY_MODE"
      then some "trusted-headers"
      else if name == "OPENAI_API_KEY"
      then some "key"
      else none;
  lower = λ s. s;
  decimal = tally;
}

abbrev paths : Paths
paths = record {
  is_absolute = λ s. true;
  resolve = λ s. s;
  dirname = λ s. s;
  check_writable_directory = λ s. true;
}

abbrev integrations : QaIntegrationStatus
integrations = record {
  jira = record {
    mode = live;
    base_url = some "https://jira";
    auth_mode = none;
    email_configured = false;
    token_configured = true;
    write_enabled = false;
    write_mode = live;
  };
  bitbucket = record {
    mode = live;
    base_url = "https://api.bitbucket.org/2.0";
    token_configured = true;
    projects = ("PCC", record { label = "app"; workspace = "team"; repo_slug = "pcc" } ∷ []) ∷ [];
  };
  playwright = record {
    mode = live;
    enabled = true;
    timeout_ms = 45000;
    targets =
        record { project_id = "PCC"; environment = TargetEnvironment.playground; url = "https://a" }
        ∷ record { project_id = "PCC"; environment = TargetEnvironment.qa; url = "https://b" }
        ∷ [];
  };
}

abbrev options : ReadinessOptions
options = record {
  state_path = none;
  artifact_root = none;
  pack_count = 2;
  persistence = some (record {
    mode = some PersistenceMode.postgres_supabase;
    shared = some true;
    state_ready = some true;
    artifacts_ready = some true;
  });
  policy = some (record {
    configured = some true;
    mode = some "opa";
    healthy = some true;
    connector_registry_ready = some true;
    fail_closed = some true;
  });
}

in_pilot_mode : is_pilot pilot_process ≡ true
unfolding trim
in_pilot_mode = refl

build_deployment_readiness-IsPilotReady_example :
    ((build_deployment_readiness pilot_process paths integrations options).ready ≡ true)
    ↔ IsPilotReady pilot_process paths integrations options
build_deployment_readiness-IsPilotReady_example =
    build_deployment_readiness-IsPilotReady pilot_process paths integrations options in_pilot_mode

is_ready : (build_deployment_readiness pilot_process paths integrations options).ready ≡ true
unfolding build_deployment_readiness boolean_env trim
is_ready = refl

abbrev input : PilotInput
input = record {
  instance_id = "one";
  identity = record {
    user_id = "lead";
    tenant_id = "tenant";
    project_ids = "*" ∷ [];
    source = IdentitySource.trusted_headers;
  };
  deployment = build_deployment_readiness pilot_process paths integrations options;
  integrations = integrations;
  project_tests =
      record {
        project_id = "PCC";
        configured = true;
        suites = record { id = "smoke"; cases = "login" ∷ [] } ∷ [];
      }
      ∷ [];
  persistence = record { mode = PersistenceMode.postgres_supabase; shared = true };
  policy = record {
    configured = true;
    mode = "opa";
    healthy = true;
    connector_count = 3;
    fail_closed = true;
  };
}

build_pilot_validation-IsPilotValid_example :
    ((build_pilot_validation pilot_process (λ v. none) input).ready ≡ true)
    ↔ IsPilotValid pilot_process input
build_pilot_validation-IsPilotValid_example =
    build_pilot_validation-IsPilotValid pilot_process input (λ v. none)

is_valid : (build_pilot_validation pilot_process (λ v. none) input).ready ≡ true
unfolding build_pilot_validation build_deployment_readiness boolean_env trim get look csv
is_valid = refl

bounded_integer_within_example :
    (1 ≤ bounded_integer (some (Rounded.natural 500)) 2 1 20)
    × (bounded_integer (some (Rounded.natural 500)) 2 1 20 ≤ 20)
bounded_integer_within_example =
    bounded_integer_within (some (Rounded.natural 500)) 2 1 20 (omega arith) (omega arith)
