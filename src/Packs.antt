-- ===== src/Packs.antt =====
-- The agents of a compiled pack: apps/agent-window/src/server/pack-agents.ts and pack-runtime.ts,
-- with the types of pack-compiler.ts that they read.
pub mod QaTable
pub mod FrontendTable
pub mod Qa
pub mod Frontend
pub mod Governance
pub mod Team
pub mod Catalogue
pub mod Lock
pub mod Binding
use bm_agents_world.Common.{
  String, Bool, true, false, not, ◌&&◌, Option, none, some, List, [], ◌∷◌, ◌++◌, map, keep, find,
  concat, join, if◌then◌else◌, ◌==◌,
}
use bm_agents_world.Common.Dict.{Dict, set}
use bm_agents_world.Common.ObjectLiteral.{Looked, undefined_value, own_value, inherited_value}
use bm_agents_world.Json.{Json, Fields, text, obj, end, field}
use bm_agents_world.Environment.{is_empty}

pub record CompiledAgent : Type 0 where
  pub id : String
  pub role : Option String
  pub purpose : Option String
  pub enabled : Bool

-- The fields of a compiled pack that the planner reads.
pub record CompiledPack : Type 0 where
  pub id : String
  pub supervisor : String
  pub agents : List CompiledAgent

pub data AgentKind : Type 0 where
  supervisor specialist : AgentKind

pub record ResolvedAgent : Type 0 where
  pub id : String
  pub kind : AgentKind
  pub role : Option String
  pub purpose : Option String
  pub enabled : Bool

pub record ResolvedAgentModel : Type 0 where
  pub pack_id : String
  pub supervisor_ref : String
  pub supervisor : Option ResolvedAgent
  pub specialists : List ResolvedAgent
  pub diagnostics : List String
  pub ok : Bool

-- A result, or the message of an exception.
pub data Planned (A : Type 0) : Type 0 where
  planned : A → Planned A
  failed : String → Planned A

abbrev resolved : AgentKind → CompiledAgent → ResolvedAgent
resolved kind a = record {
  id = a.id;
  kind = kind;
  role = a.role;
  purpose = a.purpose;
  enabled = true;
}

abbrev missing_supervisor : CompiledPack → Option CompiledAgent → List String
missing_supervisor pack (some a) = []
missing_supervisor pack none =
    concat (
      "supervisor \"" ∷ pack.supervisor ∷ "\" is not present in the agent registry for pack \""
      ∷ pack.id ∷ "\"" ∷ [])
    ∷ []

abbrev is_nil : List String → Bool
is_nil [] = true
is_nil (x ∷ xs) = false

abbrev resolved_supervisor : Option CompiledAgent → Option ResolvedAgent
resolved_supervisor none = none
resolved_supervisor (some a) = some (resolved AgentKind.supervisor a)

-- `resolvePackAgents`
unfoldable pub resolve_pack_agents : CompiledPack → Bool → Planned ResolvedAgentModel
unfolding concat join
resolve_pack_agents pack strict =
    let found = find (λ a. a.id == pack.supervisor) pack.agents in
    let diagnostics = missing_supervisor pack found in
    if not (is_nil diagnostics) && strict
    then failed (
        concat (
          "Pack \""
          ∷ pack.id
          ∷ "\" agent model failed to resolve:\n  - "
          ∷ join "\n  - " diagnostics
          ∷ []))
    else planned (record {
      pack_id = pack.id;
      supervisor_ref = pack.supervisor;
      supervisor = resolved_supervisor found;
      specialists =
          map (resolved AgentKind.specialist)
            (keep (λ a. not (a.id == pack.supervisor) && a.enabled) pack.agents);
      diagnostics = diagnostics;
      ok = is_nil diagnostics;
    })

pub record PackRuntimeProvider : Type 0 where
  pub pack_id : String
  pub supervisor_runtime_id : String → String
  pub specialist_runtime_id : String → String
  pub grants_for : String → Looked (List String)

pub record GovernedAgentSpec : Type 0 where
  pub runtime_id : String
  pub source_id : String
  pub kind : AgentKind
  pub purpose : Option String
  pub capabilities : Looked (List String)

pub record GovernedAgentPlan : Type 0 where
  pub pack_id : String
  pub supervisor : Option GovernedAgentSpec
  pub specialists : List GovernedAgentSpec
  pub diagnostics : List String
  pub ok : Bool

abbrev supervisor_spec : PackRuntimeProvider → Option ResolvedAgent → Option GovernedAgentSpec
supervisor_spec provider none = none
supervisor_spec provider (some a) = some (record {
  runtime_id = provider.supervisor_runtime_id a.id;
  source_id = a.id;
  kind = AgentKind.supervisor;
  purpose = a.purpose;
  capabilities = undefined_value;
})

abbrev specialist_spec :
    PackRuntimeProvider → ResolvedAgent → Looked (List String) → GovernedAgentSpec
specialist_spec provider a capabilities = record {
  runtime_id = provider.specialist_runtime_id a.id;
  source_id = a.id;
  kind = AgentKind.specialist;
  purpose = a.purpose;
  capabilities = capabilities;
}

-- The `flatMap` over the specialists: whatever is found under the name of an agent is taken.
unfoldable pub specialist_specs : PackRuntimeProvider → List ResolvedAgent → List GovernedAgentSpec
specialist_specs provider [] = []
specialist_specs provider (a ∷ agents) =
    let rest = specialist_specs provider agents in
    elim (provider.grants_for a.id) [
      | undefined_value ↦ rest
      | own_value ids ↦ specialist_spec provider a (own_value ids) ∷ rest
      | inherited_value n ↦ specialist_spec provider a (inherited_value n) ∷ rest
    ]

abbrev pub plan_of : PackRuntimeProvider → ResolvedAgentModel → GovernedAgentPlan
plan_of provider model = record {
  pack_id = model.pack_id;
  supervisor = supervisor_spec provider model.supervisor;
  specialists = specialist_specs provider model.specialists;
  diagnostics = model.diagnostics;
  ok = model.ok;
}

abbrev pub plan_with : PackRuntimeProvider → Planned ResolvedAgentModel → Planned GovernedAgentPlan
plan_with provider (failed message) = failed message
plan_with provider (planned model) = planned (plan_of provider model)

-- `planGovernedAgents`
unfoldable pub plan_governed_agents :
    CompiledPack → PackRuntimeProvider → Bool → Planned GovernedAgentPlan
unfolding resolve_pack_agents specialist_specs
plan_governed_agents pack provider strict = plan_with provider (resolve_pack_agents pack strict)

-- The loops that build `scoped` in the grant specifications of the packs.
unfoldable pub scope_entries :
    (String → String) → Dict (List String) → Dict (List String) → Dict (List String)
scope_entries runtime_id scoped [] = scoped
scope_entries runtime_id scoped ((id, capabilities) ∷ entries) =
    scope_entries runtime_id (set (runtime_id id) capabilities scoped) entries

-- `if (value)` at a text that may be undefined
abbrev pub given : Option String → Option String
given none = none
given (some s) = if is_empty s then none else some s

abbrev field_of : String → Fields → Option Json
field_of k end = none
field_of k (field j v fs) = if j == k then some v else field_of k fs

abbrev drop_null : Option Json → Option Json
drop_null (some Json.null) = none
drop_null v = v

abbrev own_field : String → Option Json → Option Json
own_field k (some (obj fs)) = field_of k fs
own_field k _ = none

-- `inputs[k]`, as an operand of `??`: none where it is undefined or null.
unfoldable pub not_null : String → Option Json → Option Json
not_null k inputs = drop_null (own_field k inputs)

-- `if (typeof value === "string") payload[k] = value`, before the entries that follow
unfoldable pub text_field : String → Option Json → Fields → Fields
text_field k (some (text s)) rest = field k (text s) rest
text_field k _ rest = rest
