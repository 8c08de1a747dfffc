-- ===== src/Packs/Binding.antt =====
-- Which capability a workflow step of a governed pack is bound to, and with what payload.
use bm_agents_world.Common.{
  String, true, false, ◌≡◌, refl, sym, subst, inl, inr, Option, none, some, List, [], ◌∷◌, map, All,
  Bool-cases, Option-cases, includes, ◌==◌,
}
use bm_agents_world.Common.Dict.{Dict, get}
use bm_agents_world.Common.ObjectLiteral.{
  Looked, undefined_value, own_value, inherited_value, look, look_own, is_inherited,
}
use bm_agents_world.Json.{Json, Fields, text, obj, end, field}
use bm_agents_world.Environment.{Process, boolean_env, is_empty}
use bm_agents_world.Workflow.Compiler.{CompiledWorkflowStep}
use bm_agents_world.Workflow.Steps.{WorkflowRunContext}
use bm_agents_world.Workflow.Runner.{CapabilityStepBinding}
use bm_agents_world.Packs.{given, not_null, text_field}
use bm_agents_world.Packs.Qa.{
  qa_workflow_binding, qa_skill_capability, available_qa_capabilities, qa_capability_enabled,
}
use bm_agents_world.Packs.Frontend.{
  frontend_workflow_binding, frontend_skill_capability, frontend_action_capability, first_mapped,
  field_for, frontend_capability_of, available_frontend_capabilities, frontend_capability_enabled,
}
use bm_agents_world.Packs.Governance.{
  PackGovernance, resolve_pack_governance, qa_governance, frontend_governance,
}
use bm_agents_world.Packs.Team.{registered_packs}

-- Only texts stand in the fields.
abbrev pub AreTexts : Fields → Type 0
AreTexts end = Unit
AreTexts (field k v fs) = ((s : String) × (v ≡ text s)) × AreTexts fs

-- A binding to a capability that the pack offers under the process, with a payload of texts.
pub record IsOffered (p : Process) (g : PackGovernance) (b : CapabilityStepBinding) : Type 0 where
  pub offered : includes (map (λ d. d.id) (g.capabilities p)) b.capability_id ≡ true
  pub fields : Fields
  pub payload : b.payload ≡ some (obj fields)
  pub texts : AreTexts fields

-- A step is bound to nothing, or to what the pack offers: never to an inherited value.
abbrev pub IsSound : Process → PackGovernance → Looked CapabilityStepBinding → Type 0
IsSound p g undefined_value = Unit
IsSound p g (own_value b) = IsOffered p g b
IsSound p g (inherited_value n) = ⊥

abbrev pub IsPlain : Option String → Type 0
IsPlain none = Unit
IsPlain (some name) = is_inherited name ≡ false

-- The names under which a step is looked up are not those of members of `Object.prototype`.
pub record HasPlainNames (step : CompiledWorkflowStep) : Type 0 where
  pub skill : IsPlain step.skill
  pub action : IsPlain step.action
  pub skills : All (λ s. is_inherited s ≡ false) step.skills

text_field-AreTexts :
    (k : String) (v : Option Json) (rest : Fields) → AreTexts rest → AreTexts (text_field k v rest)
unfolding text_field
text_field-AreTexts k (some (text s)) rest h = ((s, refl), h)
text_field-AreTexts k _ rest h = h

get-All :
    (P : String → Type 0) (k v : String) (m : Dict String)
    → All (λ e. P e.1) m
    → get k m ≡ some v
    → P v
unfolding get
get-All P k v [] h e = absurd (cc)
get-All P k v ((j, w) ∷ m) h e = elim (Bool-cases (j == k)) [
  | inl same ↦ subst P (found (rw same at e)) h.0
  | inr other ↦ get-All P k v m h.1 (rw other at e)
]
  where
    found : some w ≡ some v → w ≡ v
    found e = cc

-- The capabilities that the maps of the packs name are offered.
abbrev Offers : PackGovernance → Process → String → Type 0
Offers g p id = includes (map (λ d. d.id) (g.capabilities p)) id ≡ true

qa_skills_known : (p : Process) → All (λ e. Offers qa_governance p e.1) qa_skill_capability
unfolding available_qa_capabilities qa_capability_enabled get
qa_skills_known p = (refl, (refl, (refl, (refl, tt))))

frontend_skills_known :
    (p : Process) → All (λ e. Offers frontend_governance p e.1) frontend_skill_capability
unfolding available_frontend_capabilities frontend_capability_enabled get
frontend_skills_known p = (refl, (refl, (refl, (refl, (refl, (refl, tt))))))

frontend_actions_known :
    (p : Process) → All (λ e. Offers frontend_governance p e.1) frontend_action_capability
unfolding available_frontend_capabilities frontend_capability_enabled get
frontend_actions_known p =
    elim (Bool-cases (boolean_env p "FRONTEND_QUALITY_GATES_ENABLED" false)) [
      | inl h ↦ rw (h, All) (refl, (refl, tt))
      | inr h ↦ rw (h, All) (refl, (refl, tt))
    ]

none_some : {A : Type 0} {b : A} → none ≡ some b → ⊥
none_some e = cc

bound-IsOffered :
    (p : Process) (g : PackGovernance) (id : String) (fields : Fields)
    → Offers g p id
    → AreTexts fields
    → IsOffered p g (record { capability_id = id; payload = some (obj fields) })
bound-IsOffered p g id fields o t = record {
  offered = o;
  fields = fields;
  payload = refl;
  texts = t;
}

plain_given :
    (o : Option String) (s : String) → given o ≡ some s → IsPlain o → is_inherited s ≡ false
plain_given none s e h = absurd (none_some e)
plain_given (some t) s e h = elim (Bool-cases (is_empty t)) [
  | inl f ↦ absurd (none_some (rw f at e))
  | inr f ↦ subst (λ s. is_inherited s ≡ false) (same (rw f at e)) h
]
  where
    same : some t ≡ some s → t ≡ s
    same k = cc

qa_binding-IsSound :
    (p : Process) (step : CompiledWorkflowStep) (c : WorkflowRunContext)
    → HasPlainNames step
    → IsSound p qa_governance (qa_workflow_binding step c)
unfolding qa_workflow_binding
qa_binding-IsSound p step c plain = elim (Option-cases (given step.skill)) [
  | inl e ↦ rw (e, IsSound) tt
  | inr (skill, e) ↦ elim (Option-cases (get skill qa_skill_capability)) [
    | inl f ↦ rw (e, look_own skill qa_skill_capability (own e), f, IsSound) tt
    | inr (id, f) ↦
        rw (e, look_own skill qa_skill_capability (own e), f, IsSound)
          (bound-IsOffered p qa_governance id _
            (get-All (Offers qa_governance p) skill id qa_skill_capability (qa_skills_known p) f)
            (text_field-AreTexts "storyId" _ end tt))
  ]
]
  where
    own : {skill : String} → given step.skill ≡ some skill → is_inherited skill ≡ false
    own e = plain_given step.skill _ e plain.skill

-- What is found for a step is offered, and it is no inherited value.
abbrev AreOffers : Process → Looked String → Type 0
AreOffers p undefined_value = Unit
AreOffers p (own_value id) = Offers frontend_governance p id
AreOffers p (inherited_value n) = ⊥

looked-AreOffers :
    (p : Process) (name : String) (table : Dict String)
    → All (λ e. Offers frontend_governance p e.1) table
    → is_inherited name ≡ false
    → AreOffers p (look name table)
looked-AreOffers p name table known plain = elim (Option-cases (get name table)) [
  | inl f ↦ rw (look_own name table plain, f, AreOffers) tt
  | inr (id, f) ↦
      rw (look_own name table plain, f, AreOffers)
        (get-All (Offers frontend_governance p) name id table known f)
]

first_mapped-AreOffers :
    (p : Process) (skills : List String)
    → All (λ s. is_inherited s ≡ false) skills
    → AreOffers p (first_mapped skills)
unfolding first_mapped
first_mapped-AreOffers p [] plain = tt
first_mapped-AreOffers p (skill ∷ skills) plain =
    either (look skill frontend_skill_capability) (first_mapped skills)
      (looked-AreOffers p skill frontend_skill_capability (frontend_skills_known p) plain.0)
      (first_mapped-AreOffers p skills plain.1)
  where
    either :
        (l rest : Looked String)
        → AreOffers p l
        → AreOffers p rest
        → AreOffers p (elim l [
          | undefined_value ↦ rest
          | inherited_value n ↦ inherited_value n
          | own_value capability ↦ own_value capability
        ])
    either undefined_value rest a b = b
    either (own_value id) rest a b = a
    either (inherited_value n) rest a b = a

frontend_capability-AreOffers :
    (p : Process) (step : CompiledWorkflowStep)
    → HasPlainNames step
    → AreOffers p (frontend_capability_of step)
unfolding frontend_capability_of
frontend_capability-AreOffers p step plain = elim (Option-cases (given step.action)) [
  | inr (action, e) ↦
      rw (e, AreOffers)
        (looked-AreOffers p action frontend_action_capability (frontend_actions_known p)
          (plain_given step.action action e plain.action))
  | inl e ↦ rw (e, AreOffers) (first_mapped-AreOffers p step.skills plain.skills)
]

field_for-AreTexts :
    (capability wanted name : String) (inputs : Option Json) (rest : Fields)
    → AreTexts rest
    → AreTexts (field_for capability wanted name inputs rest)
field_for-AreTexts capability wanted name inputs rest h = elim (Bool-cases (capability == wanted)) [
  | inl e ↦ rw (e, AreTexts) (text_field-AreTexts name (not_null name inputs) rest h)
  | inr e ↦ rw (e, AreTexts) h
]

frontend_binding-IsSound :
    (p : Process) (step : CompiledWorkflowStep) (c : WorkflowRunContext)
    → HasPlainNames step
    → IsSound p frontend_governance (frontend_workflow_binding step c)
unfolding frontend_workflow_binding
frontend_binding-IsSound p step c plain =
    bound (frontend_capability_of step) (frontend_capability-AreOffers p step plain) _ (λ id.
      text_field-AreTexts "storyId" _ _ (
        field_for-AreTexts id "frontend.design.tokens.read" "designFileId" c.inputs _ (
          field_for-AreTexts id "frontend.bitbucket.pullrequest.create" "pullRequestDraftArtifactId"
            c.inputs _
            (field_for-AreTexts id "frontend.jira.comment.post" "commentDraftArtifactId" c.inputs
              end tt))))
  where
    bound :
        (l : Looked String)
        → AreOffers p l
        → (fields : String → Fields) → ((id : String) → AreTexts (fields id))
        → IsSound p frontend_governance (elim l [
          | undefined_value ↦ undefined_value
          | inherited_value n ↦ inherited_value n
          | own_value capability ↦
              own_value
                (record { capability_id = capability; payload = some (obj (fields capability)) })
        ])
    bound undefined_value h fields texts = tt
    bound (own_value id) h fields texts = bound-IsOffered p frontend_governance id _ h (texts id)
    bound (inherited_value n) h fields texts = h

-- In every environment of the process, a step of a workflow that a governed pack binds to a
-- capability is bound to one that the pack then registers with the broker, and its payload is an
-- object of texts only; provided that the step's skill, action and skills are not named like
-- members of `Object.prototype`.
pub binding-IsOffered :
    (name : String) (g : PackGovernance) (p : Process) (step : CompiledWorkflowStep)
    (c : WorkflowRunContext)
    → resolve_pack_governance name ≡ own_value g
    → HasPlainNames step
    → IsSound p g (g.resolve_workflow_binding step c)
binding-IsOffered name g p step c governed plain = elim (registered_packs name g governed) [
  | inl e ↦ subst Claim (sym e) (qa_binding-IsSound p step c plain)
  | inr e ↦ subst Claim (sym e) (frontend_binding-IsSound p step c plain)
]
  where
    Claim : PackGovernance → Type 0
    Claim g = IsSound p g (g.resolve_workflow_binding step c)
