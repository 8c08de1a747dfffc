-- ===== src/Policy/Connectors/Admission.antt =====
-- What an admission by the registry rests on.
use bm_agents_world.Common.{suc, ◌≤◌, String, true, false, ◌≡◌, any, arith}
use bm_agents_world.Capability.{CapabilityDefinition, EnvironmentName}
use bm_agents_world.Policy.Connectors.{
  Mapping, admit, is_disabled, is_env, is_class, pack_allowed, normalize_pack_id, risk_index,
  wire_risk_index,
}

-- What the registry's file must say of a tool and its connector for a capability to be admitted.
pub record Admits (d : CapabilityDefinition) (pack : String) (e : EnvironmentName) (m : Mapping)
    : Type 0 where
  pub enabled : is_disabled m.connector.status ≡ false
  pub for_pack : pack_allowed m.connector (normalize_pack_id pack) ≡ true
  pub in_environment : any (is_env e) m.tool.environments ≡ true
  pub same_class : is_class d.action_class m.tool.action_class ≡ true
  pub within_ceiling : suc (risk_index d.risk_level) ≤ wire_risk_index m.tool.max_risk

pub admit_sound :
    (d : CapabilityDefinition) (pack : String) (e : EnvironmentName) (m : Mapping)
    → (admit d pack e m).allowed ≡ true
    → Admits d pack e m
unfolding admit
admit_sound d pack e m h = record {
  enabled = ground arith;
  for_pack = ground arith;
  in_environment = ground arith;
  same_class = ground arith;
  within_ceiling = ground arith;
}

pub admit_complete :
    (d : CapabilityDefinition) (pack : String) (e : EnvironmentName) (m : Mapping)
    → Admits d pack e m
    → (admit d pack e m).allowed ≡ true
unfolding admit
admit_complete d pack e m h = ground arith
