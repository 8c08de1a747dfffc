-- ===== src/Identity/Access.antt =====
-- Whom the middleware lets in, and as whom.
use bm_agents_world.Common.{
  truth_apart, String, true, false, ◌≡◌, refl, sym, ◌∙◌, Option, none, some, List, All, Bool-cases,
  inl, inr,
}
use bm_agents_world.Environment.{Process, trimmed, is_empty, or_text}
use bm_agents_world.Environment.Lists.{IsClean, csv-IsClean}
use bm_agents_world.Identity.{
  RequestIdentity, IdentitySource, Admission, runs_as, unauthorized, is_trusted_mode,
  identity_middleware, trusted_admission, admit,
}

-- A header that holds more than white space.
abbrev pub Gives : Option String → String → Type 0
Gives header value = (trimmed header ≡ some value) × (is_empty value ≡ false)

-- An admission that rests on the headers of the gateway alone.
pub data Vouched (header : String → Option String) : Admission → Type 0 where
  vouched :
      (identity : RequestIdentity)
      → Gives (header "x-user-id") identity.user_id
      → Gives (header "x-tenant-id") identity.tenant_id
      → All IsClean identity.project_ids
      → identity.source ≡ IdentitySource.trusted_headers
      → Vouched header (runs_as identity)
  turned_away :
      ((user tenant : String)
        → Gives (header "x-user-id") user
        → Gives (header "x-tenant-id") tenant
        → ⊥)
      → Vouched header unauthorized

none_some : {v : String} → none ≡ some v → ⊥
none_some h = cc

some_same : {u v : String} → some u ≡ some v → u ≡ v
some_same h = cc

-- A blank header gives no value.
Gives-blank :
    {h : Option String} {u v : String}
    → h ≡ some u
    → is_empty u ≡ true
    → h ≡ some v
    → is_empty v ≡ false
    → ⊥
Gives-blank {h} {u} {v} e blank f solid = truth_apart (sym blank ∙ rw same solid)
  where
    same : u ≡ v
    same = cc

admit-Vouched :
    (header : String → Option String) (user tenant : Option String) (projects : List String)
    → trimmed (header "x-user-id") ≡ user
    → trimmed (header "x-tenant-id") ≡ tenant
    → All IsClean projects
    → Vouched header (admit user tenant projects)
unfolding admit
admit-Vouched header none tenant projects e f clean =
    turned_away λ u t gu gt. none_some (sym e ∙ gu.0)
admit-Vouched header (some user) none projects e f clean =
    turned_away λ u t gu gt. none_some (sym f ∙ gt.0)
admit-Vouched header (some user) (some tenant) projects e f clean =
    elim (Bool-cases (is_empty user)) [
      | inl blank ↦ rw blank (turned_away λ u t gu gt. Gives-blank e blank gu.0 gu.1)
      | inr solid ↦ elim (Bool-cases (is_empty tenant)) [
        | inl blank ↦ rw (solid, blank) (turned_away λ u t gu gt. Gives-blank f blank gt.0 gt.1)
        | inr firm ↦ rw (solid, firm) (vouched _ (e, solid) (f, firm) clean refl)
      ]
    ]

-- In the mode of trusted headers, a request runs under an identity exactly when the headers name a
-- user and a tenant that are not blank. The identity is then theirs, its projects are neither blank
-- nor padded, and it is marked as the gateway's. Every other request is answered with 401.
pub identity_middleware-Vouched :
    (p : Process) (header : String → Option String)
    → is_trusted_mode p ≡ true
    → Vouched header (identity_middleware p header)
unfolding identity_middleware trusted_admission
identity_middleware-Vouched p header trusted = rw trusted (
    admit-Vouched header _ _ _ refl refl
      (csv-IsClean (some (or_text (header "x-project-ids") (or_text (header "x-project-id") "")))))
