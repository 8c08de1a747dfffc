-- ===== src/Deployment/Pilot/Projects.antt =====
-- What the tests on a project of the pilot say: of its repositories, its targets and its cases.
use bm_agents_world.Common.{
  ℕ, ◌≤◌, String, Bool, true, ◌&&◌, ◌≡◌, refl, sym, ◌↔◌, ◌⊎◌, inl, inr, Option, none, some, List,
  [], ◌∷◌, length, any, ltb, arith, both_true, and_true, eq_iff, Bool-cases, Option-cases,
  truth_apart, Member,
}
use bm_agents_world.Common.Dict.{Dict, get}
use bm_agents_world.Common.ObjectLiteral.{look, object_prototype}
use bm_agents_world.Environment.{Process}
use bm_agents_world.Deployment.{BitbucketRepositoryRef, TargetEnvironment, PlaywrightTargetRef}
use bm_agents_world.Deployment.Conditions.{ltb_zero, ltb_pos}
use bm_agents_world.Deployment.Pilot.{
  ProjectSuite, PilotProjectTestStatus, repository_count, target_eq, same_project, count_cases,
  test_cases, is_configured,
}

-- The project has a repository of its own; or nothing, and its name is that of a member of
-- `Object.prototype` which takes parameters.
abbrev pub HasRepository : Dict (List BitbucketRepositoryRef) → String → Type 0
HasRepository projects project =
    ((repositories : List BitbucketRepositoryRef) × (get project projects ≡ some repositories)
      × (1 ≤ length repositories))
    ⊎ ((get project projects ≡ none)
        × ((n : ℕ) × (get project object_prototype ≡ some n) × (1 ≤ n)))

pub counted-HasRepository :
    (projects : Dict (List BitbucketRepositoryRef)) (project : String)
    → ltb 0 (repository_count (look project projects)) ≡ true
    → HasRepository projects project
unfolding look
counted-HasRepository projects project h = elim (Option-cases (get project projects)) [
  | inr (xs, e) ↦ inl (xs, e, ltb_zero _ (rw (e, repository_count) at h))
  | inl e ↦ elim (Option-cases (get project object_prototype)) [
    | inr (n, f) ↦ inr (e, (n, f, ltb_zero _ (rw (e, f, repository_count) at h)))
    | inl f ↦ absurd (truth_apart (sym (rw (e, f, repository_count) at h)))
  ]
]

pub HasRepository-counted :
    (projects : Dict (List BitbucketRepositoryRef)) (project : String)
    → HasRepository projects project
    → ltb 0 (repository_count (look project projects)) ≡ true
unfolding look
HasRepository-counted projects project (inl (xs, e, n)) = rw (e, repository_count) (ltb_pos _ n)
HasRepository-counted projects project (inr (e, (n, f, m))) =
    rw (e, f, repository_count) (ltb_pos _ m)

module _ {A : Type 0} (f : A → Bool) where
  any-Member : (xs : List A) → any f xs ≡ true → (x : A) × Member x xs × (f x ≡ true)
  any-Member [] h = absurd (truth_apart (sym h))
  any-Member (x ∷ xs) h = elim (Bool-cases (f x)) [
    | inl e ↦ (x, inl refl, e)
    | inr e ↦ let (y, m, k) = any-Member xs (rw e at h) in (y, inr m, k)
  ]

  Member-any : (x : A) (xs : List A) → Member x xs → f x ≡ true → any f xs ≡ true
  Member-any x [] m h = absurd m
  Member-any x (y ∷ xs) (inl e) h = rw (e, h) refl
  Member-any x (y ∷ xs) (inr m) h = elim (Bool-cases (f y)) [
    | inl e ↦ rw e refl
    | inr e ↦ rw e (Member-any x xs m h)
  ]

target_eq_iff : (a b : TargetEnvironment) → (target_eq a b ≡ true) ↔ (a ≡ b)
target_eq_iff a b = (λ h. ground arith, λ h. ground arith)

module _ (p : Process) (project : String) where
  -- Some target of the project is in the environment.
  abbrev pub IsCovered : List PlaywrightTargetRef → TargetEnvironment → Type 0
  IsCovered targets e =
      (t : PlaywrightTargetRef) × Member t targets
      × (p.lower t.project_id ≡ p.lower project)
      × (t.environment ≡ e)

  pub IsCovered-iff :
      (targets : List PlaywrightTargetRef) (e : TargetEnvironment)
      → (any (λ t. same_project p t.project_id project && target_eq t.environment e) targets ≡ true)
        ↔ IsCovered targets e
  IsCovered-iff targets e = (
    λ h.
        let (t, m, k) = any-Member _ targets h in
        let (a, b) = both_true _ _ k in
        (t, m, (eq_iff _ _).0 a, (target_eq_iff t.environment e).0 b),
    λ c.
        let (t, m, a, b) = c in
        Member-any _ t targets m
          (and_true _ _ ((eq_iff _ _).1 a) ((target_eq_iff t.environment e).1 b)),
  )

  -- A profile whose identity is configured, with a case in one of its suites.
  pub record IsTested (profiles : Option PilotProjectTestStatus) : Type 0 where
    pub profile : PilotProjectTestStatus
    pub found : profiles ≡ some profile
    pub configured : profile.configured ≡ true
    pub suite : ProjectSuite
    pub of_profile : Member suite profile.suites
    pub cases : 1 ≤ length suite.cases

  counted_suite :
      (ss : List ProjectSuite)
      → 1 ≤ count_cases p ss
      → (s : ProjectSuite) × Member s ss × (1 ≤ length s.cases)
  counted_suite [] h = absurd (omega arith)
  counted_suite (s ∷ ss) h = elim (Bool-cases (ltb 0 (length s.cases))) [
    | inl e ↦ (s, inl refl, ltb_zero _ e)
    | inr e ↦ let (t, m, k) = counted_suite ss (ground arith) in (t, inr m, k)
  ]

  suite_counted :
      (s : ProjectSuite) (ss : List ProjectSuite)
      → Member s ss
      → 1 ≤ length s.cases
      → 1 ≤ count_cases p ss
  suite_counted s [] m h = absurd m
  suite_counted s (t ∷ ss) (inl e) h = rw e (omega (arith, h))
  suite_counted s (t ∷ ss) (inr m) h = omega (arith, suite_counted s ss m h)

  pub tested :
      (o : Option PilotProjectTestStatus)
      → is_configured p o ≡ true
      → 1 ≤ test_cases p o
      → IsTested o
  tested none c n = absurd (truth_apart (sym c))
  tested (some t) c n =
      let (s, m, k) = counted_suite t.suites n in
      record { profile = t; found = refl; configured = c; suite = s; of_profile = m; cases = k }

  pub IsTested-checked :
      (o : Option PilotProjectTestStatus)
      → IsTested o
      → (is_configured p o ≡ true) × (1 ≤ test_cases p o)
  IsTested-checked o t = (
    rw (t.found, t.configured) refl,
    rw t.found (suite_counted t.suite t.profile.suites t.of_profile t.cases),
  )
