-- ===== src/Capability/Grants.antt =====
-- apps/agent-window/src/server/platform/capability-grants.ts: which agent may ask for which
-- capability. A `Set<string>` is the list of its elements.
pub mod Authority
use bm_agents_world.Common.{
  String, Bool, true, false, ◌||◌, Option, none, some, List, [], ◌∷◌, if◌then◌else◌, includes,
  or_default,
}
use bm_agents_world.Common.Dict.{Dict, get, set, has}

pub data UnknownMode : Type 0 where
  deny allow : UnknownMode

pub record CapabilityGrantSpec : Type 0 where
  pub scoped : Option (Dict (List String))
  pub unrestricted : Option (List String)
  pub unknown : Option UnknownMode

pub record CapabilityGrantRegistry : Type 0 where
  pub scoped : Dict (List String)
  pub unrestricted : List String
  pub unknown_mode : UnknownMode

-- The constructor's first loop.
unfoldable pub add_scoped : Dict (List String) → Dict (List String) → Dict (List String)
add_scoped scoped [] = scoped
add_scoped scoped ((agent, ids) ∷ entries) = add_scoped (set agent ids scoped) entries

-- Its second loop: `Set.add`.
unfoldable pub add_unrestricted : List String → List String → List String
add_unrestricted seen [] = seen
add_unrestricted seen (agent ∷ agents) =
    add_unrestricted (if includes seen agent then seen else agent ∷ seen) agents

unfoldable pub make_registry : CapabilityGrantSpec → CapabilityGrantRegistry
unfolding add_scoped add_unrestricted
make_registry spec = record {
  scoped = add_scoped [] (or_default spec.scoped []);
  unrestricted = add_unrestricted [] (or_default spec.unrestricted []);
  unknown_mode = or_default spec.unknown deny;
}

unfoldable pub is_scoped : CapabilityGrantRegistry → String → Bool
is_scoped r agent = has agent r.scoped

unfoldable pub is_unrestricted : CapabilityGrantRegistry → String → Bool
is_unrestricted r agent = includes r.unrestricted agent

unfoldable pub is_known : CapabilityGrantRegistry → String → Bool
is_known r agent = has agent r.scoped || includes r.unrestricted agent

abbrev allows_unknown : UnknownMode → Bool
allows_unknown deny = false
allows_unknown allow = true

unfoldable pub allows : CapabilityGrantRegistry → String → String → Bool
allows r agent capability =
    if includes r.unrestricted agent then true else elim (get agent r.scoped) [
      | some ids ↦ includes ids capability
      | none ↦ allows_unknown r.unknown_mode
    ]

unfoldable pub grants_for : CapabilityGrantRegistry → String → List String
grants_for r agent = or_default (get agent r.scoped) []
