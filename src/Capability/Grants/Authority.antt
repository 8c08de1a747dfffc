-- ===== src/Capability/Grants/Authority.antt =====
-- What a registry built from a specification lets an agent ask for.
use bm_agents_world.Common.{
  String, true, ◌≡◌, refl, ◌↔◌, ◌||◌, none, some, List, [], ◌∷◌, includes, or_default, or_else,
  arith, eq_iff, Bool-cases, Option-cases, inl, inr,
}
use bm_agents_world.Common.Dict.{Dict, get, set, get-set}
use bm_agents_world.Capability.Grants.{
  UnknownMode, CapabilityGrantSpec, add_scoped, add_unrestricted, make_registry, allows,
}

-- The entries of an object have pairwise different keys.
abbrev pub Distinct : Dict (List String) → Type 0
Distinct [] = Unit {0}
Distinct ((k, _) ∷ m) = (get k m ≡ none) × Distinct m

get-add_scoped :
    (agent : String) (scoped entries : Dict (List String))
    → Distinct entries
    → get agent (add_scoped scoped entries) ≡ or_else (get agent entries) (get agent scoped)
unfolding add_scoped get
get-add_scoped agent scoped [] d = refl
get-add_scoped agent scoped ((k, ids) ∷ entries) d = ground (
  arith,
  get-add_scoped agent (set k ids scoped) entries d.1,
  get-set k agent ids scoped,
  eq_iff k agent,
)

includes-add_unrestricted :
    (agent : String) (seen agents : List String)
    → includes (add_unrestricted seen agents) agent ≡ (includes seen agent || includes agents agent)
unfolding add_unrestricted
includes-add_unrestricted agent seen [] = ground arith
includes-add_unrestricted agent seen (a ∷ agents) = elim (Bool-cases (includes seen a)) [
  | inl old ↦ rw old (ground (arith, includes-add_unrestricted agent seen agents, eq_iff a agent))
  | inr new ↦
      rw new (ground (arith, includes-add_unrestricted agent (a ∷ seen) agents, eq_iff a agent))
]

-- Who may ask for a capability, read off the specification.
pub data Authorised (spec : CapabilityGrantSpec) (agent capability : String) : Type 0 where
  supervisor :
      includes (or_default spec.unrestricted []) agent ≡ true → Authorised spec agent capability
  granted :
      (ids : List String)
      → get agent (or_default spec.scoped []) ≡ some ids
      → includes ids capability ≡ true
      → Authorised spec agent capability
  legacy :
      get agent (or_default spec.scoped []) ≡ none
      → spec.unknown ≡ some UnknownMode.allow
      → Authorised spec agent capability

allows_sound :
    (spec : CapabilityGrantSpec) (agent capability : String)
    → Distinct (or_default spec.scoped [])
    → allows (make_registry spec) agent capability ≡ true
    → Authorised spec agent capability
unfolding allows make_registry get
allows_sound spec agent capability d h =
    elim (Bool-cases (includes (or_default spec.unrestricted []) agent)) [
      | inl listed ↦ supervisor listed
      | inr unlisted ↦ elim (Option-cases (get agent (or_default spec.scoped []))) [
        | inr (ids, e) ↦ granted ids e (ground (arith, scoped_entry, unrestricted_entry))
        | inl e ↦ legacy e (ground (arith, scoped_entry, unrestricted_entry))
      ]
    ]
  where
    scoped_entry :
        get agent (add_scoped [] (or_default spec.scoped []))
        ≡ or_else (get agent (or_default spec.scoped [])) none
    scoped_entry = get-add_scoped agent [] (or_default spec.scoped []) d

    unrestricted_entry :
        includes (add_unrestricted [] (or_default spec.unrestricted [])) agent
        ≡ includes (or_default spec.unrestricted []) agent
    unrestricted_entry = includes-add_unrestricted agent [] (or_default spec.unrestricted [])

allows_complete :
    (spec : CapabilityGrantSpec) (agent capability : String)
    → Distinct (or_default spec.scoped [])
    → Authorised spec agent capability
    → allows (make_registry spec) agent capability ≡ true
unfolding allows make_registry get
allows_complete spec agent capability d (supervisor h) =
    ground (arith, includes-add_unrestricted agent [] (or_default spec.unrestricted []))
allows_complete spec agent capability d (granted ids e h) =
    ground (arith, get-add_scoped agent [] (or_default spec.scoped []) d)
allows_complete spec agent capability d (legacy e h) =
    ground (arith, get-add_scoped agent [] (or_default spec.scoped []) d)

-- For a specification whose scoped entries have different agents: the registry that the
-- constructor builds allows a request exactly if the agent is declared unrestricted, or its
-- allowlist holds the capability, or it has no allowlist and the registry was declared in the
-- mode that allows unknown agents. So an agent that the specification does not name is denied
-- unless that mode was declared.
pub allows_iff :
    (spec : CapabilityGrantSpec) (agent capability : String)
    → Distinct (or_default spec.scoped [])
    → (allows (make_registry spec) agent capability ≡ true) ↔ Authorised spec agent capability
allows_iff spec agent capability d =
    (allows_sound spec agent capability d, allows_complete spec agent capability d)
