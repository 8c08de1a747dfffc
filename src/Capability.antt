-- ===== src/Capability.antt =====
-- apps/agent-window/src/server/platform/capability-types.ts, and the record `CapabilityRun` of
-- platform/capability-store.ts. A time is a count of milliseconds; the ISO texts that the source
-- stores stand for the same counts.
pub mod Grants
pub mod Store
use bm_agents_world.Common.{ℕ, String, Bool, true, false, ◌||◌, Option, List, [], ◌∷◌}
use bm_agents_world.Common.Dict.{Dict}
use bm_agents_world.Json.{Json}

pub data RiskLevel : Type 0 where
  l0 l1 l2 l3 l4 : RiskLevel

pub data ApprovalMode : Type 0 where
  none standing_policy human privileged_process : ApprovalMode

pub data ActionStatus : Type 0 where
  ready pending_approval approved rejected executing executed failed : ActionStatus

pub data EnvironmentName : Type 0 where
  playground qa prod : EnvironmentName

pub data ActionClass : Type 0 where
  read test mutation external_write : ActionClass

pub record ExecutionContext : Type 0 where
  pub run_id : String
  pub user_id : String
  pub agent_id : String
  pub pack_id : String
  pub project_id : String
  pub environment : EnvironmentName
  pub tenant_id : String
  pub requested_at : ℕ

pub record CapabilityDefinition : Type 0 where
  pub id : String
  pub system : String
  pub action : String
  pub description : String
  pub risk_level : RiskLevel
  pub approval_mode : ApprovalMode
  pub action_class : ActionClass
  pub external_write : Bool
  pub production_mutation : Bool
  pub allowed_environments : List EnvironmentName
  pub adapter_id : String

pub data PolicyEffect : Type 0 where
  allow approval deny : PolicyEffect

pub data PolicySource : Type 0 where
  local opa legacy : PolicySource

pub record AppliedPolicyDecision : Type 0 where
  pub effect : PolicyEffect
  pub source : PolicySource
  pub decision_id : Option String
  pub connector_id : Option String
  pub tool_id : Option String

pub data ApprovalStatus : Type 0 where
  pending approved rejected expired : ApprovalStatus

pub record ApprovalContract : Type 0 where
  pub id : String
  pub action_id : String
  pub payload_hash : String
  pub risk_level : RiskLevel
  pub status : ApprovalStatus
  pub requested_at : ℕ
  pub expires_at : ℕ
  pub decided_at : Option ℕ
  pub decided_by : Option String
  pub reason : Option String

pub data AdapterMode : Type 0 where
  mock live : AdapterMode

-- `output` is the field `data` of the source.
pub record AdapterResult : Type 0 where
  pub ok : Bool
  pub mode : AdapterMode
  pub external_side_effect : Bool
  pub output : Option Json
  pub error : Option String

pub record CapabilityAction : Type 0 where
  pub id : String
  pub capability_id : String
  pub context : ExecutionContext
  pub payload : Json
  pub payload_hash : String
  pub risk_level : RiskLevel
  pub approval_mode : ApprovalMode
  pub status : ActionStatus
  pub created_at : ℕ
  pub updated_at : ℕ
  pub execution_started_at : Option ℕ
  pub execution_finished_at : Option ℕ
  pub execution_duration_ms : Option ℕ
  pub approval : Option ApprovalContract
  pub result : Option AdapterResult
  pub policy_reason : String
  pub policy_decision : Option AppliedPolicyDecision

pub data ActorType : Type 0 where
  human agent system : ActorType

pub data AuditKind : Type 0 where
  action_requested approval_requested approval_approved approval_rejected : AuditKind
  action_executing action_executed action_failed action_denied : AuditKind

-- A metadata entry whose value is undefined holds none.
abbrev pub Metadata : Type 0
Metadata = Dict (Option Json)

pub record AuditEvent : Type 0 where
  pub id : String
  pub timestamp : ℕ
  pub run_id : String
  pub actor_type : ActorType
  pub actor_id : String
  pub event : AuditKind
  pub action_id : Option String
  pub capability_id : Option String
  pub payload_hash : Option String
  pub metadata : Option Metadata

pub record CapabilityRun : Type 0 where
  pub id : String
  pub context : ExecutionContext
  pub created_at : ℕ
  pub updated_at : ℕ

-- `environment === "prod"`
abbrev pub is_prod : EnvironmentName → Bool
is_prod prod = true
is_prod _ = false

abbrev pub env_eq : EnvironmentName → EnvironmentName → Bool
env_eq playground playground = true
env_eq qa qa = true
env_eq prod prod = true
env_eq _ _ = false

abbrev pub class_eq : ActionClass → ActionClass → Bool
class_eq read read = true
class_eq test test = true
class_eq mutation mutation = true
class_eq external_write external_write = true
class_eq _ _ = false

abbrev pub is_read : ActionClass → Bool
is_read c = class_eq c read

-- `allowedEnvironments.includes(environment)`
abbrev pub includes_env : List EnvironmentName → EnvironmentName → Bool
includes_env [] e = false
includes_env (x ∷ xs) e = env_eq x e || includes_env xs e

-- Membership in `["L2", "L3", "L4"]`, the set `RISK_REQUIRES_HUMAN` of the brokers.
abbrev pub requires_human : RiskLevel → Bool
requires_human l0 = false
requires_human l1 = false
requires_human _ = true

abbrev pub risk_name : RiskLevel → String
risk_name l0 = "L0"
risk_name l1 = "L1"
risk_name l2 = "L2"
risk_name l3 = "L3"
risk_name l4 = "L4"

abbrev pub environment_name : EnvironmentName → String
environment_name playground = "playground"
environment_name qa = "qa"
environment_name prod = "prod"
