-- ===== src/Identity.antt =====
-- apps/agent-window/src/server/platform/request-identity.ts. The identity of a request travels in
-- asynchronous local storage, which a reader is given as an option. A header is looked up by the
-- function that the request carries.
pub mod Access
use bm_agents_world.Common.{
  String, Bool, true, false, not, ◌&&◌, ◌||◌, Option, none, some, List, includes, any,
  if◌then◌else◌, ◌==◌,
}
use bm_agents_world.Environment.{Process, csv, or_text, trimmed, env_is, is_empty}
use bm_agents_world.Capability.{ExecutionContext}

pub data IdentitySource : Type 0 where
  local_dev trusted_headers : IdentitySource

pub record RequestIdentity : Type 0 where
  pub user_id : String
  pub tenant_id : String
  pub project_ids : List String
  pub source : IdentitySource

-- The exceptions of the module.
pub data IdentityError : Type 0 where
  identity_unavailable : IdentityError
  not_authorized : String → String → IdentityError

pub data Checked {ℓ} (A : Type ℓ) : Type ℓ where
  passes : A → Checked A
  fails : IdentityError → Checked A

-- `localIdentity`
unfoldable pub local_identity : Process → RequestIdentity
unfolding csv
local_identity p = record {
  user_id = or_text (trimmed (p.env "BM_LOCAL_USER_ID")) "local-dev-user";
  tenant_id = or_text (trimmed (p.env "BM_LOCAL_TENANT_ID")) "local-dev";
  project_ids = csv (some (or_text (p.env "BM_LOCAL_PROJECT_IDS") "PCC,SOP,DataBridge"));
  source = IdentitySource.local_dev;
}

abbrev pub is_trusted_mode : Process → Bool
is_trusted_mode p = env_is p "BM_IDENTITY_MODE" "trusted-headers"

-- `currentRequestIdentity`
unfoldable pub current_identity : Process → Option RequestIdentity → Checked RequestIdentity
unfolding local_identity
current_identity p (some identity) = passes identity
current_identity p none =
    if is_trusted_mode p then fails identity_unavailable else passes (local_identity p)

-- What the middleware makes of a request: the next handler runs under an identity, or the answer is
-- 401.
pub data Admission : Type 0 where
  runs_as : RequestIdentity → Admission
  unauthorized : Admission

-- What follows from the two trimmed headers.
unfoldable pub admit : Option String → Option String → List String → Admission
admit (some user) (some tenant) projects =
    if is_empty user || is_empty tenant
    then unauthorized
    else runs_as (record {
      user_id = user;
      tenant_id = tenant;
      project_ids = projects;
      source = IdentitySource.trusted_headers;
    })
admit _ _ projects = unauthorized

-- The middleware in the mode of trusted headers.
unfoldable pub trusted_admission : (String → Option String) → Admission
unfolding csv admit
trusted_admission header =
    admit (trimmed (header "x-user-id")) (trimmed (header "x-tenant-id"))
      (csv (some (or_text (header "x-project-ids") (or_text (header "x-project-id") ""))))

-- `identityMiddleware`
unfoldable pub identity_middleware : Process → (String → Option String) → Admission
unfolding local_identity trusted_admission
identity_middleware p header =
    if not (is_trusted_mode p) then runs_as (local_identity p) else trusted_admission header

-- `canAccessProject`
unfoldable pub can_access_project : Process → RequestIdentity → String → Bool
can_access_project p identity project =
    includes identity.project_ids "*"
    || any (λ value. p.lower value == p.lower project) identity.project_ids

-- `canAccessExecutionContext`
unfoldable pub can_access_context : Process → RequestIdentity → ExecutionContext → Bool
unfolding can_access_project
can_access_context p identity c =
    identity.tenant_id == c.tenant_id && can_access_project p identity c.project_id

-- `assertProjectAccess`
unfoldable pub assert_project_access : Process → RequestIdentity → String → Checked {0} Unit
unfolding can_access_project
assert_project_access p identity project =
    if not (can_access_project p identity project)
    then fails (not_authorized identity.user_id project)
    else passes tt

abbrev is_local : IdentitySource → Bool
is_local IdentitySource.local_dev = true
is_local IdentitySource.trusted_headers = false

-- `canSelfApprove`
unfoldable pub can_self_approve : Process → RequestIdentity → Bool
can_self_approve p identity =
    is_local identity.source && not (env_is p "BM_LOCAL_ALLOW_SELF_APPROVAL" "false")
