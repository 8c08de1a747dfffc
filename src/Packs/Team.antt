-- ===== src/Packs/Team.antt =====
-- The team that is planned for a governed pack, against what the broker's grants let it do.
use text.Mathlib.TextLemmas.{append_cancel_left, append-nil, cons-append}
use bm_agents_world.Common.{
  ℕ, String, Bool, true, false, ◌≡◌, ◌≢◌, ◌↔◌, ◌⊎◌, refl, sym, ap, ◌∙◌, subst, map, keep, find, not,
  ◌&&◌, Option, none, some, List, [], ◌∷◌, or_else, includes, concat, arith, eq_iff, eq_refl, All,
  Bool-cases, Option-cases, inl, inr, ◌==◌, truth_apart,
}
use bm_agents_world.Common.Dict.{Dict, get, set, get-set}
use bm_agents_world.Common.ObjectLiteral.{
  own_value, look, look_own, looked_past, is_inherited, object_prototype,
}
use bm_agents_world.Capability.Grants.{
  CapabilityGrantSpec, CapabilityGrantRegistry, UnknownMode, make_registry, allows,
}
use bm_agents_world.Capability.Grants.Authority.{
  Distinct, Authorised, supervisor, granted, legacy, allows_iff,
}
use bm_agents_world.Packs.{
  CompiledPack, CompiledAgent, AgentKind, resolved, is_nil, missing_supervisor, ResolvedAgent,
  ResolvedAgentModel, GovernedAgentSpec, GovernedAgentPlan, PackRuntimeProvider, Planned, planned,
  failed, scope_entries, specialist_specs, plan_of, plan_with, plan_governed_agents,
  resolve_pack_agents,
}
use bm_agents_world.Packs.Qa.{
  qa_specialist_agent_id, qa_specialist_capabilities, qa_runtime_provider, qa_grant_spec,
}
use bm_agents_world.Packs.Frontend.{
  frontend_specialist_agent_id, frontend_specialist_capabilities, frontend_runtime_provider,
  frontend_grant_spec,
}
use bm_agents_world.Packs.Governance.{
  PackGovernance, resolve_pack_governance, qa_governance, frontend_governance,
}

set-Distinct :
    (k : String) (ids : List String) (m : Dict (List String)) → Distinct m → Distinct (set k ids m)
unfolding set get
set-Distinct k ids [] d = (refl, tt)
set-Distinct k ids ((j, w) ∷ m) d = elim (Bool-cases (j == k)) [
  | inl same ↦ rw same (rw (sym ((eq_iff j k).0 same)) d.0, d.1)
  | inr other ↦
      rw other
        (get-set k j ids m ∙ ground (arith, eq_iff j k, eq_iff k j, d.0), set-Distinct k ids m d.1)
]

module _ (f : String → String) (injective : (i j : String) → f i ≡ f j → i ≡ j) where
  scope_entries-Distinct :
      (scoped entries : Dict (List String))
      → Distinct scoped
      → Distinct (scope_entries f scoped entries)
  unfolding scope_entries
  scope_entries-Distinct scoped [] d = d
  scope_entries-Distinct scoped ((id, ids) ∷ entries) d =
      scope_entries-Distinct (set (f id) ids scoped) entries (set-Distinct (f id) ids scoped d)

  apart : (i j : String) → (f i == f j) ≡ (i == j)
  apart i j = elim (Bool-cases (i == j)) [
    | inl same ↦ rw ((eq_iff i j).0 same) (eq_refl (f j) ∙ sym (eq_refl j))
    | inr other ↦ elim (Bool-cases (f i == f j)) [
      | inr h ↦ h ∙ sym other
      | inl h ↦
          absurd
            (truth_apart (sym ((eq_iff i j).1 (injective i j ((eq_iff (f i) (f j)).0 h))) ∙ other))
    ]
  ]

  get-scope_entries :
      (id : String) (scoped entries : Dict (List String))
      → Distinct entries
      → get (f id) (scope_entries f scoped entries) ≡ or_else (get id entries) (get (f id) scoped)
  unfolding scope_entries get
  get-scope_entries id scoped [] d = refl
  get-scope_entries id scoped ((k, ids) ∷ entries) d = ground (
    arith,
    get-scope_entries id (set (f k) ids scoped) entries d.1,
    get-set (f k) (f id) ids scoped,
    apart k id,
    eq_iff k id,
  )

-- What a specialist is told it may do is what the broker lets it do.
pub record IsMatched (r : CapabilityGrantRegistry) (s : GovernedAgentSpec) : Type 0 where
  pub ids : List String
  pub told : s.capabilities ≡ own_value ids
  pub let_do :
      (capability : String)
      → (allows r s.runtime_id capability ≡ true) ↔ (includes ids capability ≡ true)

module _ (f : String → String) (injective : (i j : String) → f i ≡ f j → i ≡ j) (sup : String)
    (not_supervisor : (i : String) → sup ≢ f i) (table : Dict (List String))
    (distinct : Distinct table) where
  abbrev spec : CapabilityGrantSpec
  spec = record {
    scoped = some (scope_entries f [] table);
    unrestricted = some (sup ∷ []);
    unknown = none;
  }

  abbrev provider : String → PackRuntimeProvider
  provider id = record {
    pack_id = id;
    supervisor_runtime_id = λ i. sup;
    specialist_runtime_id = f;
    grants_for = λ i. look i table;
  }

  entry : (id : String) → get (f id) (scope_entries f [] table) ≡ or_else (get id table) none
  unfolding get
  entry id = get-scope_entries f injective id [] table distinct ∙ ap (or_else (get id table)) refl

  allowed_iff :
      (id : String) (ids : List String) (capability : String)
      → get id table ≡ some ids
      → (allows (make_registry spec) (f id) capability ≡ true) ↔ (includes ids capability ≡ true)
  allowed_iff id ids capability e = (
    (λ h. from ((allows_iff spec (f id) capability known).0 h)),
    (λ h. (allows_iff spec (f id) capability known).1 (granted ids (entry id ∙ rw e refl) h)),
  )
    where
      known : Distinct (scope_entries f [] table)
      known = scope_entries-Distinct f injective [] table tt

      only : (x : String) → includes (sup ∷ []) x ≡ true → sup ≡ x
      only x h = ground (arith, eq_iff sup x)

      same :
          (other : List String) → get (f id) (scope_entries f [] table) ≡ some other → other ≡ ids
      same other g = cc (g, entry id, e)

      unset : none ≡ some UnknownMode.allow → ⊥
      unset h = cc

      from : Authorised spec (f id) capability → includes ids capability ≡ true
      from (supervisor h) = absurd (not_supervisor id (only (f id) h))
      from (granted other g h) = subst (λ ids. includes ids capability ≡ true) (same other g) h
      from (legacy g h) = absurd (unset h)

  specs-IsMatched :
      (agents : List ResolvedAgent)
      → All (λ a. is_inherited a.id ≡ false) agents
      → All (IsMatched (make_registry spec)) (specialist_specs (provider sup) agents)
  unfolding specialist_specs
  specs-IsMatched [] plain = tt
  specs-IsMatched (a ∷ agents) plain = elim (Option-cases (get a.id table)) [
    | inl h ↦ rw (look_own a.id table plain.0, h, All) (specs-IsMatched agents plain.1)
    | inr (ids, h) ↦
        rw (look_own a.id table plain.0, h, All)
          (
            record { ids = ids; told = refl; let_do = λ c. allowed_iff a.id ids c h },
            specs-IsMatched agents plain.1,
          )
  ]

-- A specialist's id in the runtime.
abbrev namespaced : String → String → String
namespaced sup id = concat (sup ∷ "." ∷ id ∷ [])

namespaced_injective : (sup i j : String) → namespaced sup i ≡ namespaced sup j → i ≡ j
unfolding concat
namespaced_injective sup i j h =
    sym (append-nil i) ∙ append_cancel_left "." _ _ (append_cancel_left sup _ _ h) ∙ append-nil j

namespaced_apart : (sup i : String) → sup ≢ namespaced sup i
unfolding concat
namespaced_apart sup i h =
    empty (append_cancel_left sup _ _ (append-nil sup ∙ h) ∙ cons-append "." "" _)
  where
    empty : {s : String} → String.[] ≡ String.◌∷◌ "." s → ⊥
    empty e = cc

-- No specialist has the name of a member of `Object.prototype`.
abbrev ArePlain : Planned ResolvedAgentModel → Type 0
ArePlain (failed m) = Unit
ArePlain (planned model) = All (λ a. is_inherited a.id ≡ false) model.specialists

kept-All :
    (f : CompiledAgent → Bool) (r : CompiledAgent → ResolvedAgent)
    (same : (a : CompiledAgent) → (r a).id ≡ a.id) (agents : List CompiledAgent)
    → All (λ a. is_inherited a.id ≡ false) agents
    → All (λ a. is_inherited a.id ≡ false) (map r (keep f agents))
kept-All f r same [] h = tt
kept-All f r same (a ∷ agents) h = elim (Bool-cases (f a)) [
  | inl e ↦ rw (e, All) (ap is_inherited (same a) ∙ h.0, kept-All f r same agents h.1)
  | inr e ↦ rw (e, All) (kept-All f r same agents h.1)
]

resolved-All :
    (pack : CompiledPack) (strict : Bool)
    → All (λ a. is_inherited a.id ≡ false) pack.agents
    → ArePlain (resolve_pack_agents pack strict)
unfolding resolve_pack_agents
resolved-All pack strict plain = elim (Bool-cases halted) [
  | inl e ↦ rw e tt
  | inr e ↦
      rw (e, ArePlain)
        (kept-All (λ a. not (a.id == pack.supervisor) && a.enabled) (resolved AgentKind.specialist)
          (λ a. refl) pack.agents plain)
]
  where
    halted : Bool
    halted =
        not (is_nil (missing_supervisor pack (find (λ a. a.id == pack.supervisor) pack.agents)))
        && strict

-- The plan of a governed pack, where one is made.
planned_specialists :
    (pack : CompiledPack) (strict : Bool) (provider : PackRuntimeProvider)
    (P : GovernedAgentSpec → Type 0) (plan : GovernedAgentPlan)
    → All (λ a. is_inherited a.id ≡ false) pack.agents
    → ((agents : List ResolvedAgent)
        → All (λ a. is_inherited a.id ≡ false) agents
        → All P (specialist_specs provider agents))
    → plan_governed_agents pack provider strict ≡ planned plan
    → All P plan.specialists
unfolding plan_governed_agents
planned_specialists pack strict provider P plan plain every e =
    from (resolve_pack_agents pack strict) (resolved-All pack strict plain) e
  where
    from :
        (r : Planned ResolvedAgentModel)
        → ArePlain r
        → plan_with provider r ≡ planned plan
        → All P plan.specialists
    from (failed m) w h = absurd (cc)
    from (planned model) w h = subst (λ q. All P q.specialists) same (every model.specialists w)
      where
        same : plan_of provider model ≡ plan
        same = cc

qa-IsMatched :
    (pack : CompiledPack) (strict : Bool) (plan : GovernedAgentPlan)
    → All (λ a. is_inherited a.id ≡ false) pack.agents
    → plan_governed_agents pack qa_runtime_provider strict ≡ planned plan
    → All (IsMatched (make_registry qa_grant_spec)) plan.specialists
unfolding qa_runtime_provider qa_grant_spec qa_specialist_agent_id get
qa-IsMatched pack strict plan plain =
    planned_specialists pack strict qa_runtime_provider (IsMatched (make_registry qa_grant_spec))
      plan plain
      (specs-IsMatched (namespaced "qa") (namespaced_injective "qa") "qa" (namespaced_apart "qa")
        qa_specialist_capabilities
        (refl, (refl, (refl, (refl, (refl, (refl, (refl, (refl, (refl, tt))))))))))

frontend-IsMatched :
    (pack : CompiledPack) (strict : Bool) (plan : GovernedAgentPlan)
    → All (λ a. is_inherited a.id ≡ false) pack.agents
    → plan_governed_agents pack frontend_runtime_provider strict ≡ planned plan
    → All (IsMatched (make_registry frontend_grant_spec)) plan.specialists
unfolding frontend_runtime_provider frontend_grant_spec frontend_specialist_agent_id get
frontend-IsMatched pack strict plan plain =
    planned_specialists pack strict frontend_runtime_provider
      (IsMatched (make_registry frontend_grant_spec)) plan plain
      (specs-IsMatched (namespaced "frontend-angular") (namespaced_injective "frontend-angular")
        "frontend-angular" (namespaced_apart "frontend-angular") frontend_specialist_capabilities
        (refl, (refl, (refl, (refl, (refl, (refl, tt)))))))

-- The two packs that are registered.
pub registered_packs :
    (name : String) (g : PackGovernance)
    → resolve_pack_governance name ≡ own_value g
    → (g ≡ qa_governance) ⊎ (g ≡ frontend_governance)
unfolding resolve_pack_governance look get
registered_packs name g h = elim (Bool-cases ("qa" == name)) [
  | inl e ↦ inl (same (rw e at h))
  | inr e ↦ elim (Bool-cases ("frontend-angular" == name)) [
    | inl f ↦ inr (same (rw (e, f) at h))
    | inr f ↦ absurd (none_own (get name object_prototype) (rw (e, f) at h))
  ]
]
  where
    same : {q : PackGovernance} → own_value q ≡ own_value g → g ≡ q
    same e = cc

    none_own : (o : Option ℕ) → looked_past o ≡ own_value g → ⊥
    none_own none e = cc
    none_own (some n) e = cc

-- In the plan of a governed pack, every specialist is told of a list of capabilities, and the
-- registry that the broker builds from the grants of the same pack allows the specialist's id in
-- the runtime exactly the capabilities of that list; provided no agent of the pack is named like a
-- member of `Object.prototype`.
pub plan_governed_agents-IsMatched :
    (name : String) (g : PackGovernance) (pack : CompiledPack) (strict : Bool)
    (plan : GovernedAgentPlan)
    → resolve_pack_governance name ≡ own_value g
    → All (λ a. is_inherited a.id ≡ false) pack.agents
    → plan_governed_agents pack g.runtime_provider strict ≡ planned plan
    → All (IsMatched (make_registry g.grant_spec)) plan.specialists
plan_governed_agents-IsMatched name g pack strict plan known plain h =
    elim (registered_packs name g known) [
      | inl e ↦ subst (Claim) (sym e) (qa-IsMatched pack strict plan plain) h
      | inr e ↦ subst (Claim) (sym e) (frontend-IsMatched pack strict plan plain) h
    ]
  where
    Claim : PackGovernance → Type 0
    Claim g =
        plan_governed_agents pack g.runtime_provider strict ≡ planned plan
        → All (IsMatched (make_registry g.grant_spec)) plan.specialists
