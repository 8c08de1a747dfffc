-- ===== src/Policy/Connectors/Index.antt =====
-- The index from capabilities to tools that the registry's constructor builds.
use mathlib.Core.List.{Memᴰ}
use bm_agents_world.Common.{
  String, true, ◌≡◌, ◌↔◌, some, List, [], ◌∷◌, includes, arith, eq_iff, Option-cases, inl, inr, ◌⊎◌,
  ap, sym, ◌∙◌, subst,
}
use bm_agents_world.Common.Dict.{Dict, get, set, get-set}
use bm_agents_world.Capability.{CapabilityDefinition, EnvironmentName}
use bm_agents_world.Policy.Connectors.{
  ApprovedConnector, ApprovedConnectorTool, Mapping, Registry, index_ids, index_tools,
  index_connectors, make_registry, admission,
}
use bm_agents_world.Policy.Connectors.Admission.{Admits, admit_sound, admit_complete}

index_ids_sound :
    (m : Mapping) (ks : List String) (d d' : Dict Mapping) (k : String) (x : Mapping)
    → index_ids m ks d ≡ some d'
    → get k d' ≡ some x
    → (get k d ≡ some x) ⊎ ((x ≡ m) × (includes ks k ≡ true))
unfolding index_ids
index_ids_sound m [] d d' k x e h = ground arith
index_ids_sound m (j ∷ ks) d d' k x e h =
    ground (arith, index_ids_sound m ks (set j m d) d' k x, get-set j k m d, eq_iff j k)

index_ids_keeps :
    (m : Mapping) (ks : List String) (d d' : Dict Mapping) (k : String) (x : Mapping)
    → index_ids m ks d ≡ some d'
    → get k d ≡ some x
    → get k d' ≡ some x
unfolding index_ids
index_ids_keeps m [] d d' k x e h = ground arith
index_ids_keeps m (j ∷ ks) d d' k x e h =
    ground (arith, index_ids_keeps m ks (set j m d) d' k x, get-set j k m d, eq_iff j k)

index_ids_adds :
    (m : Mapping) (ks : List String) (d d' : Dict Mapping) (k : String)
    → index_ids m ks d ≡ some d'
    → includes ks k ≡ true
    → get k d' ≡ some m
unfolding index_ids
index_ids_adds m [] d d' k e h = cc
index_ids_adds m (j ∷ ks) d d' k e h = ground (
  arith,
  index_ids_adds m ks (set j m d) d' k,
  index_ids_keeps m ks (set j m d) d' k m,
  get-set j k m d,
  eq_iff j k,
)

-- The tool that a capability is mapped to, and the loops that reach it.
abbrev pub FromTools : ApprovedConnector → List ApprovedConnectorTool → String → Mapping → Type 0
FromTools c ts k x = (x.connector ≡ c) × Memᴰ x.tool ts × (includes x.tool.capability_ids k ≡ true)

index_tools_step :
    (c : ApprovedConnector) (t : ApprovedConnectorTool) (ts : List ApprovedConnectorTool)
    (d d' : Dict Mapping)
    → index_tools c (t ∷ ts) d ≡ some d'
    → (mid : Dict Mapping) × (index_ids (record { connector = c; tool = t }) t.capability_ids d
        ≡ some mid)
      × (index_tools c ts mid ≡ some d')
unfolding index_tools
index_tools_step c t ts d d' e =
    elim (Option-cases (index_ids (record { connector = c; tool = t }) t.capability_ids d)) [
      | inl bad ↦ absurd (ground arith)
      | inr (mid, good) ↦ (mid, good, ground arith)
    ]

index_tools_sound :
    (c : ApprovedConnector) (ts : List ApprovedConnectorTool) (d d' : Dict Mapping) (k : String)
    (x : Mapping)
    → index_tools c ts d ≡ some d'
    → get k d' ≡ some x
    → (get k d ≡ some x) ⊎ FromTools c ts k x
unfolding index_tools
index_tools_sound c [] d d' k x e h = inl (ground arith)
index_tools_sound c (t ∷ ts) d d' k x e h =
    let (mid, first, later) = index_tools_step c t ts d d' e in
    elim (index_tools_sound c ts mid d' k x later h) [
      | inr (same, mem, listed) ↦ inr (same, Memᴰ.tail mem, listed)
      | inl old ↦ elim (index_ids_sound _ t.capability_ids d mid k x first old) [
        | inl before ↦ inl before
        | inr (new, listed) ↦ inr (
          ap (λ y. y.connector) new,
          Memᴰ.head (ap (λ y. y.tool) new),
          ap (λ y. includes y.tool.capability_ids k) new ∙ listed,
        )
      ]
    ]

index_tools_keeps :
    (c : ApprovedConnector) (ts : List ApprovedConnectorTool) (d d' : Dict Mapping) (k : String)
    (x : Mapping)
    → index_tools c ts d ≡ some d'
    → get k d ≡ some x
    → get k d' ≡ some x
unfolding index_tools
index_tools_keeps c [] d d' k x e h = ground arith
index_tools_keeps c (t ∷ ts) d d' k x e h =
    let (mid, first, later) = index_tools_step c t ts d d' e in
    index_tools_keeps c ts mid d' k x later (index_ids_keeps _ t.capability_ids d mid k x first h)

index_tools_adds :
    (c : ApprovedConnector) (ts : List ApprovedConnectorTool) (d d' : Dict Mapping) (k : String)
    (t : ApprovedConnectorTool)
    → index_tools c ts d ≡ some d'
    → Memᴰ t ts
    → includes t.capability_ids k ≡ true
    → get k d' ≡ some (record { connector = c; tool = t })
index_tools_adds c [] d d' k t e m h = elim m [ ]
index_tools_adds c (u ∷ ts) d d' k t e (Memᴰ.head same) h =
    let (mid, first, later) = index_tools_step c u ts d d' e in
    index_tools_keeps c ts mid d' k _ later (
      index_ids_adds _ t.capability_ids d mid k
        (subst (λ y. index_ids (record { connector = c; tool = y }) y.capability_ids d ≡ some mid)
          (sym same) first)
        h)
index_tools_adds c (u ∷ ts) d d' k t e (Memᴰ.tail m) h =
    let (mid, first, later) = index_tools_step c u ts d d' e in
    index_tools_adds c ts mid d' k t later m h

index_connectors_step :
    (c : ApprovedConnector) (cs : List ApprovedConnector) (d d' : Dict Mapping)
    → index_connectors (c ∷ cs) d ≡ some d'
    → (mid : Dict Mapping) × (index_tools c c.tools d ≡ some mid)
      × (index_connectors cs mid ≡ some d')
unfolding index_connectors
index_connectors_step c cs d d' e = elim (Option-cases (index_tools c c.tools d)) [
  | inl bad ↦ absurd (ground arith)
  | inr (mid, good) ↦ (mid, good, ground arith)
]

-- A capability is listed by a tool of one of the connectors.
pub record Listed (cs : List ApprovedConnector) (k : String) (m : Mapping) : Type 0 where
  pub connector : Memᴰ m.connector cs
  pub tool : Memᴰ m.tool m.connector.tools
  pub capability : includes m.tool.capability_ids k ≡ true

index_connectors_sound :
    (cs : List ApprovedConnector) (d d' : Dict Mapping) (k : String) (x : Mapping)
    → index_connectors cs d ≡ some d'
    → get k d' ≡ some x
    → (get k d ≡ some x) ⊎ Listed cs k x
unfolding index_connectors
index_connectors_sound [] d d' k x e h = inl (ground arith)
index_connectors_sound (c ∷ cs) d d' k x e h =
    let (mid, first, later) = index_connectors_step c cs d d' e in
    elim (index_connectors_sound cs mid d' k x later h) [
      | inr l ↦
          inr
            (record { connector = Memᴰ.tail l.connector; tool = l.tool; capability = l.capability })
      | inl old ↦ elim (index_tools_sound c c.tools d mid k x first old) [
        | inl before ↦ inl before
        | inr (same, mem, listed) ↦ inr (record {
          connector = Memᴰ.head same;
          tool = subst (λ y. Memᴰ x.tool y.tools) (sym same) mem;
          capability = listed;
        })
      ]
    ]

index_connectors_keeps :
    (cs : List ApprovedConnector) (d d' : Dict Mapping) (k : String) (x : Mapping)
    → index_connectors cs d ≡ some d'
    → get k d ≡ some x
    → get k d' ≡ some x
unfolding index_connectors
index_connectors_keeps [] d d' k x e h = ground arith
index_connectors_keeps (c ∷ cs) d d' k x e h =
    let (mid, first, later) = index_connectors_step c cs d d' e in
    index_connectors_keeps cs mid d' k x later (index_tools_keeps c c.tools d mid k x first h)

index_connectors_adds :
    (cs : List ApprovedConnector) (d d' : Dict Mapping) (k : String) (c : ApprovedConnector)
    (t : ApprovedConnectorTool)
    → index_connectors cs d ≡ some d'
    → Memᴰ c cs
    → Memᴰ t c.tools
    → includes t.capability_ids k ≡ true
    → get k d' ≡ some (record { connector = c; tool = t })
index_connectors_adds [] d d' k c t e l m h = elim l [ ]
index_connectors_adds (b ∷ cs) d d' k c t e (Memᴰ.head same) m h =
    let (mid, first, later) = index_connectors_step b cs d d' e in
    index_connectors_keeps cs mid d' k _ later (
      index_tools_adds c c.tools d mid k t
        (subst (λ y. index_tools y y.tools d ≡ some mid) (sym same) first) m h)
index_connectors_adds (b ∷ cs) d d' k c t e (Memᴰ.tail l) m h =
    let (mid, first, later) = index_connectors_step b cs d d' e in
    index_connectors_adds cs mid d' k c t later l m h

make_registry_step :
    (cs : List ApprovedConnector) (r : Registry)
    → make_registry cs ≡ some r
    → index_connectors cs [] ≡ some r.by_capability
unfolding make_registry
make_registry_step cs r e = ground arith

lookup_iff :
    (cs : List ApprovedConnector) (r : Registry) (k : String) (m : Mapping)
    → make_registry cs ≡ some r
    → (get k r.by_capability ≡ some m) ↔ Listed cs k m
lookup_iff cs r k m e = (to, from)
  where
    built : index_connectors cs [] ≡ some r.by_capability
    built = make_registry_step cs r e

    to : get k r.by_capability ≡ some m → Listed cs k m
    to h = elim (index_connectors_sound cs [] r.by_capability k m built h) [
      | inl impossible ↦ absurd (nothing impossible)
      | inr l ↦ l
    ]
      where
        nothing : get k [] ≡ some m → ⊥
        nothing h = unfold get in cc

    from : Listed cs k m → get k r.by_capability ≡ some m
    from l =
        index_connectors_adds cs [] r.by_capability k m.connector m.tool built l.connector l.tool
          l.capability

-- For a registry that the constructor accepts: a capability is admitted exactly if some tool of
-- some listed connector names it, the connector is not disabled and is approved for the pack, and
-- the tool is approved in the environment, has the capability's action class, and has a risk
-- ceiling that is at least the capability's risk level.
pub admission_iff :
    (cs : List ApprovedConnector) (r : Registry) (d : CapabilityDefinition) (pack : String)
    (e : EnvironmentName)
    → make_registry cs ≡ some r
    → ((admission r d pack e).allowed ≡ true)
      ↔ ((m : Mapping) × Listed cs d.id m × Admits d pack e m)
unfolding admission
admission_iff cs r d pack e built = (to, from)
  where
    to :
        (admission r d pack e).allowed ≡ true → (m : Mapping) × Listed cs d.id m × Admits d pack e m
    to h = elim (Option-cases (get d.id r.by_capability)) [
      | inl missing ↦ absurd (ground arith)
      | inr (m, found) ↦
          (m, (lookup_iff cs r d.id m built).0 found, admit_sound d pack e m (ground arith))
    ]

    from :
        (m : Mapping) × Listed cs d.id m × Admits d pack e m → (admission r d pack e).allowed ≡ true
    from (m, l, a) = ground (arith, (lookup_iff cs r d.id m built).1 l, admit_complete d pack e m a)
