-- ===== src/Policy/Listing.antt =====
-- `listPublic` and `listAll` of `ApprovedConnectorRegistry` in
-- apps/agent-window/src/server/platform/connector-registry.ts. The optional field `approval` of a
-- tool is not modelled.
use bm_agents_world.Common.{ℕ, String, List, map, length}
use bm_agents_world.Capability.{ActionClass, RiskLevel, EnvironmentName}
use bm_agents_world.Policy.Connectors.{
  Wire, ConnectorKind, ConnectorStatus, ApprovedConnectorTool, ApprovedConnector, Registry,
}

pub record PublicTool : Type 0 where
  pub id : String
  pub action_class : Wire ActionClass
  pub max_risk : Wire RiskLevel
  pub environments : List (Wire EnvironmentName)
  pub capability_count : ℕ

pub record PublicConnector : Type 0 where
  pub id : String
  pub display_name : String
  pub kind : Wire ConnectorKind
  pub status : Wire ConnectorStatus
  pub systems : List String
  pub transports : List String
  pub auth : String
  pub allowed_packs : List String
  pub tools : List PublicTool

abbrev pub public_tool : ApprovedConnectorTool → PublicTool
public_tool tool = record {
  id = tool.id;
  action_class = tool.action_class;
  max_risk = tool.max_risk;
  environments = tool.environments;
  capability_count = length tool.capability_ids;
}

abbrev pub public_connector : ApprovedConnector → PublicConnector
public_connector c = record {
  id = c.id;
  display_name = c.display_name;
  kind = c.kind;
  status = c.status;
  systems = c.systems;
  transports = c.transports;
  auth = c.auth;
  allowed_packs = c.allowed_packs;
  tools = map public_tool c.tools;
}

abbrev pub list_public : Registry → List PublicConnector
list_public r = map public_connector r.connectors
