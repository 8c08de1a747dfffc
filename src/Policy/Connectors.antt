-- ===== src/Policy/Connectors.antt =====
-- apps/agent-window/src/server/platform/connector-registry.ts: the approved connectors and the
-- admission of a capability to one of their tools. The YAML file that lists them is parsed by a
-- package, so the parsed entries are the model's input.
pub mod Admission
pub mod Index
use Prim.Native.String.{[], ◌∷◌}
use mathlib.Core.List
use mathlib.Core.List.{◌∷◌ as ◌∷ᴸ◌}
use bm_agents_world.Common.{
  ℕ, String, Bool, true, false, not, ◌&&◌, ◌||◌, Option, none, some, List, if◌then◌else◌, ltb,
  concat, ◌==◌, includes, any, keep,
}
use bm_agents_world.Common.Dict.{Dict, get, set, has}
use bm_agents_world.Capability.{
  RiskLevel, l0, l1, l2, l3, l4, ActionClass, EnvironmentName, CapabilityDefinition, env_eq,
  class_eq, environment_name,
}

-- A text that the program reads from outside and casts to one of its unions without a check.
pub data Wire {ℓ} (A : Type ℓ) : Type ℓ where
  known : A → Wire A
  other : String → Wire A

pub data ConnectorKind : Type 0 where
  mcp native native_or_mcp : ConnectorKind

pub data ConnectorStatus : Type 0 where
  approved pilot disabled : ConnectorStatus

-- The optional field `approval` is not modelled: nothing reads it.
pub record ApprovedConnectorTool : Type 0 where
  pub id : String
  pub capability_ids : List String
  pub action_class : Wire ActionClass
  pub max_risk : Wire RiskLevel
  pub environments : List (Wire EnvironmentName)

pub record ApprovedConnector : Type 0 where
  pub id : String
  pub display_name : String
  pub kind : Wire ConnectorKind
  pub status : Wire ConnectorStatus
  pub systems : List String
  pub transports : List String
  pub auth : String
  pub allowed_packs : List String
  pub tools : List ApprovedConnectorTool

pub record ConnectorAdmission : Type 0 where
  pub allowed : Bool
  pub connector : Option ApprovedConnector
  pub tool : Option ApprovedConnectorTool
  pub reason : String

pub record Mapping : Type 0 where
  pub connector : ApprovedConnector
  pub tool : ApprovedConnectorTool

pub record Registry : Type 0 where
  pub connectors : List ApprovedConnector
  pub by_capability : Dict Mapping

-- `RISK_ORDER.indexOf`, plus one at texts from outside, so that 0 stands for -1.
abbrev pub risk_index : RiskLevel → ℕ
risk_index l0 = 0
risk_index l1 = 1
risk_index l2 = 2
risk_index l3 = 3
risk_index l4 = 4

abbrev pub wire_risk_index : Wire RiskLevel → ℕ
wire_risk_index (known r) = ℕ.suc (risk_index r)
wire_risk_index (other s) = 0

-- `packId.replace(/-agent-pack$/, "")`
unfoldable pub normalize_pack_id : String → String
normalize_pack_id [] = []
normalize_pack_id (c ∷ s) = if (c ∷ s) == "-agent-pack" then [] else c ∷ normalize_pack_id s

-- The three loops of the constructor; `none` is the exception for a capability that is listed
-- twice.
index_ids : Mapping → List String → Dict Mapping → Option (Dict Mapping)
index_ids m List.[] d = some d
index_ids m (List.◌∷◌ k ks) d =
    let rest = index_ids m ks (set k m d) in if has k d then none else rest

index_tools : ApprovedConnector → List ApprovedConnectorTool → Dict Mapping → Option (Dict Mapping)
unfolding index_ids
index_tools c List.[] d = some d
index_tools c (List.◌∷◌ t ts) d =
    elim (index_ids (record { connector = c; tool = t }) t.capability_ids d) [
      | none ↦ none
      | some d' ↦ index_tools c ts d'
    ]

index_connectors : List ApprovedConnector → Dict Mapping → Option (Dict Mapping)
unfolding index_tools
index_connectors List.[] d = some d
index_connectors (List.◌∷◌ c cs) d = elim (index_tools c c.tools d) [
  | none ↦ none
  | some d' ↦ index_connectors cs d'
]

unfoldable pub make_registry : List ApprovedConnector → Option Registry
unfolding index_connectors
make_registry connectors = elim (index_connectors connectors List.[]) [
  | none ↦ none
  | some d ↦ some (record { connectors = connectors; by_capability = d })
]

abbrev pub is_disabled : Wire ConnectorStatus → Bool
is_disabled (known disabled) = true
is_disabled _ = false

abbrev pub is_native : Wire ConnectorKind → Bool
is_native (known native) = true
is_native _ = false

abbrev pub is_env : EnvironmentName → Wire EnvironmentName → Bool
is_env e (known x) = env_eq x e
is_env e (other s) = false

abbrev pub is_class : ActionClass → Wire ActionClass → Bool
is_class c (known x) = class_eq x c
is_class c (other s) = false

abbrev pub wire_risk_name : Wire RiskLevel → String
wire_risk_name (known l0) = "L0"
wire_risk_name (known l1) = "L1"
wire_risk_name (known l2) = "L2"
wire_risk_name (known l3) = "L3"
wire_risk_name (known l4) = "L4"
wire_risk_name (other s) = s

abbrev pub pack_allowed : ApprovedConnector → String → Bool
pack_allowed c pack = includes c.allowed_packs "*" || includes c.allowed_packs pack

-- The checks of `admission` on the tool that the registry maps the capability to.
unfoldable pub admit :
    CapabilityDefinition → String → EnvironmentName → Mapping → ConnectorAdmission
unfolding normalize_pack_id
admit d pack e m =
    if is_disabled c.status
    then refuse ("Connector " ∷ᴸ c.id ∷ᴸ " is disabled." ∷ᴸ List.[])
    else if not (pack_allowed c (normalize_pack_id pack))
    then refuse (
        "Connector "
        ∷ᴸ c.id
        ∷ᴸ " is not approved for pack "
        ∷ᴸ normalize_pack_id pack
        ∷ᴸ "."
        ∷ᴸ List.[])
    else if not (any (is_env e) t.environments)
    then refuse (
        "Tool "
        ∷ᴸ c.id
        ∷ᴸ "."
        ∷ᴸ t.id
        ∷ᴸ " is not approved in "
        ∷ᴸ environment_name e
        ∷ᴸ "."
        ∷ᴸ List.[])
    else if not (is_class d.action_class t.action_class)
    then refuse ("Connector registry action class does not match " ∷ᴸ d.id ∷ᴸ "." ∷ᴸ List.[])
    else if ltb (wire_risk_index t.max_risk) (ℕ.suc (risk_index d.risk_level))
    then refuse (
        "Capability "
        ∷ᴸ d.id
        ∷ᴸ " exceeds the approved "
        ∷ᴸ wire_risk_name t.max_risk
        ∷ᴸ " risk ceiling for "
        ∷ᴸ c.id
        ∷ᴸ "."
        ∷ᴸ t.id
        ∷ᴸ "."
        ∷ᴸ List.[])
    else answer true (c.id ∷ᴸ "." ∷ᴸ t.id ∷ᴸ " is centrally approved." ∷ᴸ List.[])
  where
    c : ApprovedConnector
    c = m.connector

    t : ApprovedConnectorTool
    t = m.tool

    answer : Bool → List String → ConnectorAdmission
    answer allowed reason = record {
      allowed = allowed;
      connector = some c;
      tool = some t;
      reason = concat reason;
    }

    refuse : List String → ConnectorAdmission
    refuse reason = answer false reason

-- `ApprovedConnectorRegistry.admission`
unfoldable pub admission :
    Registry → CapabilityDefinition → String → EnvironmentName → ConnectorAdmission
unfolding admit
admission r d pack e = elim (get d.id r.by_capability) [
  | none ↦ record {
    allowed = false;
    connector = none;
    tool = none;
    reason =
        concat (
          "Capability " ∷ᴸ d.id ∷ᴸ " is not present in the approved connector registry."
          ∷ᴸ List.[]);
  }
  | some m ↦ admit d pack e m
]

-- `new Set(…)` over an array: the first occurrences.
unfoldable pub dedupe : List String → List String → List String
dedupe seen List.[] = seen
dedupe seen (List.◌∷◌ x xs) =
    dedupe (if includes seen x then seen else List.◌++◌ seen (x ∷ᴸ List.[])) xs

tool_ids : List ApprovedConnectorTool → List String
tool_ids List.[] = List.[]
tool_ids (List.◌∷◌ t ts) = List.◌++◌ t.capability_ids (tool_ids ts)

abbrev pub is_mcp_capable : ApprovedConnector → Bool
is_mcp_capable c = not (is_native c.kind) && not (is_disabled c.status)

-- `mcpCapableConnectors`
unfoldable pub mcp_capable_connectors : Registry → List (ApprovedConnector × List String)
unfolding dedupe tool_ids
mcp_capable_connectors r =
    List.map (λ c. (c, dedupe List.[] (tool_ids c.tools))) (keep is_mcp_capable r.connectors)
