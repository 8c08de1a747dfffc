-- ===== src/Workflow/Waves/Order.antt =====
-- The order of the waves: what the loop keeps true, and that it comes to an end.
use bm_agents_world.Common.{
  ℕ, zero, suc, ◌≤◌, ◌<◌, String, true, not, ◌≡◌, refl, sym, ◌∙◌, ap, subst, none, some, List, [],
  ◌∷◌, ◌++◌, keep, includes, length, length-append, if◌then◌else◌, ◌&&◌, arith, Bool-cases, inl,
  inr, ◌⊎◌, or_default, Option-cases, nat_eq,
}
use bm_agents_world.Common.Dict.{Dict, get, has}
use bm_agents_world.Workflow.Waves.{mark, is_ready}
use bm_agents_world.Workflow.Waves.Lists.{includes-keep, get-mark, all-includes}

-- The steps of a wave, by its number.
abbrev pub wave_at : ℕ → List (List String) → List String
wave_at w [] = []
wave_at zero (x ∷ xs) = x
wave_at (suc w) (x ∷ xs) = wave_at w xs

abbrev pub dependencies : Dict (List String) → String → List String
dependencies deps id = or_default (get id deps) []

wave_at-append :
    (w : ℕ) (waves : List (List String)) (ready : List String)
    → wave_at w (waves ++ ready ∷ []) ≡ (if nat_eq w (length waves) then ready else wave_at w waves)
wave_at-append zero [] ready = refl
wave_at-append (suc w) [] ready = ground arith
wave_at-append zero (x ∷ waves) ready = ground arith
wave_at-append (suc w) (x ∷ waves) ready = wave_at-append w waves ready ∙ ground arith

wave_at_above : (w : ℕ) (waves : List (List String)) → length waves ≤ w → wave_at w waves ≡ []
wave_at_above w [] h = refl
wave_at_above zero (x ∷ waves) h = absurd (omega arith)
wave_at_above (suc w) (x ∷ waves) h = wave_at_above w waves (omega arith)

-- A step stands in its wave, and its dependencies in earlier ones.
pub record Placed (deps : Dict (List String)) (wave_of : Dict ℕ) (waves : List (List String))
    (id : String) (w : ℕ) : Type 0 where
  pub below : w < length waves
  pub listed : includes (wave_at w waves) id ≡ true
  pub later :
      (dep : String)
      → includes (dependencies deps id) dep ≡ true
      → (v : ℕ) × (get dep wave_of ≡ some v) × (v < w)

pub record LoopInv (deps : Dict (List String)) (ids remaining : List String) (wave_of : Dict ℕ)
    (waves : List (List String)) : Type 0 where
  pub placed : (id : String) (w : ℕ) → get id wave_of ≡ some w → Placed deps wave_of waves id w
  pub only : (id : String) (w : ℕ) → includes (wave_at w waves) id ≡ true → get id wave_of ≡ some w
  pub left : (id : String) → includes remaining id ≡ true → get id wave_of ≡ none
  pub covers :
      (id : String)
      → includes ids id ≡ true
      → (includes remaining id ≡ true) ⊎ ((w : ℕ) × (get id wave_of ≡ some w))

-- One round, for the steps `ready` that it places.
module _ (deps : Dict (List String)) (ids remaining ready : List String) (wave_of : Dict ℕ)
    (waves : List (List String)) (inv : LoopInv deps ids remaining wave_of waves)
    (chosen : (k : String)
      → includes ready k ≡ (includes remaining k && is_ready deps wave_of k)) where
  abbrev pub marked : Dict ℕ
  marked = mark ready (length waves) wave_of

  get-marked :
      (k : String)
      → get k marked ≡ (if includes ready k then some (length waves) else get k wave_of)
  get-marked k = get-mark ready (length waves) wave_of k

  stays : (k : String) (v : ℕ) → get k wave_of ≡ some v → get k marked ≡ some v
  stays k v e = ground (arith, get-marked k, chosen k, inv.left k)

  new-Placed :
      (id : String)
      → includes ready id ≡ true
      → Placed deps marked (waves ++ ready ∷ []) id (length waves)
  new-Placed id h = record {
    below = omega (arith, length-append waves (ready ∷ []));
    listed = ap (λ xs. includes xs id) (wave_at-append (length waves) waves ready) ∙ ground arith;
    later = earlier;
  }
    where
      is_now : is_ready deps wave_of id ≡ true
      is_now = ground (arith, chosen id)

      earlier :
          (dep : String)
          → includes (dependencies deps id) dep ≡ true
          → (v : ℕ) × (get dep marked ≡ some v) × (v < length waves)
      earlier dep d = elim (Option-cases (get dep wave_of)) [
        | inl e ↦
            absurd (
              ground (arith, all-includes (λ x. has x wave_of) (dependencies deps id) dep is_now d))
        | inr (v, e) ↦ (v, stays dep v e, (inv.placed dep v e).below)
      ]

  old-Placed :
      (id : String) (w : ℕ)
      → get id wave_of ≡ some w
      → Placed deps marked (waves ++ ready ∷ []) id w
  old-Placed id w e = record {
    below = omega (arith, p.below, length-append waves (ready ∷ []));
    listed =
        ap (λ xs. includes xs id) (wave_at-append w waves ready)
        ∙ ground (arith, p.below, p.listed);
    later = λ dep d. let (v, found, lt) = p.later dep d in (v, stays dep v found, lt);
  }
    where
      p : Placed deps wave_of waves id w
      p = inv.placed id w e

  pub next_inv :
      LoopInv deps ids (keep (λ x. not (has x marked)) remaining) marked (waves ++ ready ∷ [])
  next_inv = record { placed = placed; only = only; left = left; covers = covers }
    where
      placed :
          (id : String) (w : ℕ)
          → get id marked ≡ some w
          → Placed deps marked (waves ++ ready ∷ []) id w
      placed id w e = elim (Bool-cases (includes ready id)) [
        | inl new ↦
            let same : length waves ≡ w = ground (arith, get-marked id) in
            subst (Placed deps marked (waves ++ ready ∷ []) id) same (new-Placed id new)
        | inr old ↦ old-Placed id w (ground (arith, get-marked id))
      ]

      only :
          (id : String) (w : ℕ)
          → includes (wave_at w (waves ++ ready ∷ [])) id ≡ true
          → get id marked ≡ some w
      only id w h = elim (Bool-cases (nat_eq w (length waves))) [
        | inl last ↦
            let inside : includes ready id ≡ true =
              ap (λ xs. includes xs id) (sym (wave_at-append w waves ready ∙ rw last)) ∙ h in
            ground (arith, get-marked id)
        | inr earlier ↦ stays id w (
            inv.only id w
              (ap (λ xs. includes xs id) (sym (wave_at-append w waves ready ∙ rw earlier)) ∙ h))
      ]

      left :
          (id : String)
          → includes (keep (λ x. not (has x marked)) remaining) id ≡ true
          → get id marked ≡ none
      left id h = ground (arith, includes-keep (λ x. not (has x marked)) remaining id)

      covers :
          (id : String)
          → includes ids id ≡ true
          → (includes (keep (λ x. not (has x marked)) remaining) id ≡ true)
            ⊎ ((w : ℕ) × (get id marked ≡ some w))
      covers id h = elim (Option-cases (get id marked)) [
        | inr (w, e) ↦ inr (w, e)
        | inl e ↦
            inl (ground (arith, includes-keep (λ x. not (has x marked)) remaining id, inside e))
      ]
        where
          inside : get id marked ≡ none → includes remaining id ≡ true
          inside e = elim (inv.covers id h) [
            | inl r ↦ r
            | inr (w, old) ↦ absurd (ground (arith, stays id w old))
          ]
