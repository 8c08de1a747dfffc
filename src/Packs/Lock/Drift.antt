-- ===== src/Packs/Lock/Drift.antt =====
-- What a lock without drift says.
use bm_agents_world.Common.{
  String, Bool, true, ◌≡◌, ◌⊎◌, refl, sym, ◌∙◌, ap, Option, none, some, List, [], ◌∷◌, Bool-cases,
  Option-cases, inl, inr, eq_iff, ◌==◌, both_true, truth_apart, ◌&&◌,
}
use mathlib.Core.Option
use bm_agents_world.Common.Dict.{Dict, get}
use bm_agents_world.Common.ObjectLiteral.{look, is_inherited, object_prototype}
use bm_agents_world.Packs.Lock.{
  PackLock, PackLockEntry, PackDriftEntry, diff_current, diff_baseline, diff_pack_lock, is_none,
  is_found,
}

-- The hash under which a lock holds a pack.
abbrev pub hash_of : Dict PackLockEntry → String → Option String
hash_of packs id = Option.map (λ e. e.content_hash) (get id packs)

some_same : {A : Type 0} {a b : A} → some a ≡ some b → a ≡ b
some_same e = cc

none_some : {A : Type 0} {b : A} → none ≡ some b → ⊥
none_some e = cc

module _ (before_unit : String → String → Bool) where
  current_same :
      (baseline packs : Dict PackLockEntry) (id : String) (e : PackLockEntry)
      → is_none before_unit (diff_current before_unit baseline packs).0 ≡ true
      → is_none before_unit (diff_current before_unit baseline packs).1 ≡ true
      → get id packs ≡ some e
      → hash_of baseline id ≡ some e.content_hash
  unfolding diff_current look get
  current_same baseline [] id e added changed h = absurd (none_some h)
  current_same baseline ((k, v) ∷ packs) id e added changed h =
      elim (Option-cases (get k baseline)) [
        | inl f ↦ elim (Option-cases (get k object_prototype)) [
          | inl i ↦ absurd (truth_apart (sym (rw (f, i, diff_current) at added)))
          | inr (n, i) ↦ absurd (truth_apart (sym (rw (f, i, diff_current) at changed)))
        ]
        | inr (prior, f) ↦ elim (Bool-cases (prior.content_hash == v.content_hash)) [
          | inr g ↦ absurd (truth_apart (sym (rw (f, g, diff_current) at changed)))
          | inl g ↦ elim (Bool-cases (k == id)) [
            | inl same ↦
                ap (hash_of baseline) (sym ((eq_iff k id).0 same))
                ∙ ap (Option.map (λ e. e.content_hash)) f
                ∙ ap some ((eq_iff prior.content_hash v.content_hash).0 g)
                ∙ ap (λ x. some x.content_hash) (some_same (rw same at h))
            | inr other ↦
                current_same baseline packs id e (rw (f, g, diff_current) at added)
                  (rw (f, g, diff_current) at changed) (rw other at h)
          ]
        ]
      ]

  baseline_known :
      (current packs : Dict PackLockEntry) (id : String) (e : PackLockEntry)
      → is_none before_unit (diff_baseline before_unit current packs) ≡ true
      → get id packs ≡ some e
      → is_found (look id current) ≡ true
  unfolding diff_baseline look get
  baseline_known current [] id e removed h = absurd (none_some h)
  baseline_known current ((k, v) ∷ packs) id e removed h =
      elim (Bool-cases (is_found (look k current))) [
        | inr f ↦ absurd (truth_apart (sym (rw (f, diff_baseline) at removed)))
        | inl f ↦ elim (Bool-cases (k == id)) [
          | inl same ↦ ap (λ j. is_found (look j current)) (sym ((eq_iff k id).0 same)) ∙ f
          | inr other ↦
              baseline_known current packs id e (rw (f, diff_baseline) at removed) (rw other at h)
        ]
      ]

  -- What is found under a name that an object does not have itself is inherited.
  found_past :
      (id : String) (packs : Dict PackLockEntry)
      → get id packs ≡ none
      → is_found (look id packs) ≡ true
      → is_inherited id ≡ true
  unfolding look
  found_past id packs f h = elim (Option-cases (get id object_prototype)) [
    | inl i ↦ absurd (truth_apart (sym (rw (f, i, is_found) at h)))
    | inr (n, i) ↦ rw i refl
  ]

  -- Where the comparison of two locks reports no drift: under every name, both hold a pack with the
  -- same content hash, or both hold none, or the current lock holds none and the name is that of a
  -- member of `Object.prototype`, which the comparison takes for the current pack.
  pub diff_pack_lock-hash_of :
      (baseline current : PackLock) (id : String)
      → (diff_pack_lock before_unit baseline current).ok ≡ true
      → (hash_of current.packs id ≡ hash_of baseline.packs id)
        ⊎ ((hash_of current.packs id ≡ none) × (is_inherited id ≡ true))
  unfolding diff_pack_lock
  diff_pack_lock-hash_of baseline current id h = elim (Option-cases (get id current.packs)) [
    | inr (e, f) ↦ inl (
        ap (Option.map (λ e. e.content_hash)) f
        ∙ sym (current_same baseline.packs current.packs id e quiet.0.0 quiet.1 f))
    | inl f ↦ elim (Option-cases (get id baseline.packs)) [
      | inl g ↦ inl (ap (Option.map (λ e. e.content_hash)) (f ∙ sym g))
      | inr (e, g) ↦ inr (
        ap (Option.map (λ e. e.content_hash)) f,
        found_past id current.packs f
            (baseline_known current.packs baseline.packs id e quiet.0.1 g),
      )
    ]
  ]
    where
      found : List PackDriftEntry × List PackDriftEntry
      found = diff_current before_unit baseline.packs current.packs

      removed : List PackDriftEntry
      removed = diff_baseline before_unit current.packs baseline.packs

      both :
          (is_none before_unit found.0 && is_none before_unit removed ≡ true)
          × (is_none before_unit found.1 ≡ true)
      both =
          both_true (is_none before_unit found.0 && is_none before_unit removed)
            (is_none before_unit found.1) h

      quiet :
          ((is_none before_unit found.0 ≡ true) × (is_none before_unit removed ≡ true))
          × (is_none before_unit found.1 ≡ true)
      quiet = (both_true (is_none before_unit found.0) (is_none before_unit removed) both.0, both.1)
