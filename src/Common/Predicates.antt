-- ===== src/Common/Predicates.antt =====
-- Predicates on lists by recursion.
use mathlib.Core.Path.{◌≡◌, refl, subst}
use mathlib.Core.Logic.{◌⊎◌, inl, inr}
use mathlib.Core.Bool.{Bool, true, false, not, ◌&&◌, ◌||◌}
use mathlib.Core.List.{List, [], ◌∷◌, ◌++◌}
use native.Mathlib.Omega.{arith}
use bm_agents_world.Common.Lists.{all}

module _ {ℓ κ} {A : Type ℓ} (P : A → Type κ) where
  abbrev pub All : List A → Type κ
  All [] = Unit
  All (x ∷ xs) = P x × All xs

  pub All-append : (xs ys : List A) → All xs → All ys → All (xs ++ ys)
  All-append [] ys hx hy = hy
  All-append (x ∷ xs) ys hx hy = (hx.0, All-append xs ys hx.1 hy)

-- `every` and the predicate.
pub both_true : (a b : Bool) → (a && b) ≡ true → (a ≡ true) × (b ≡ true)
both_true true true h = (refl, refl)
both_true true false h = (refl, h)
both_true false b h = (h, absurd (cc))

pub and_true : (a b : Bool) → a ≡ true → b ≡ true → (a && b) ≡ true
and_true true b h k = k
and_true false b h k = h

module _ {ℓ} {A : Type ℓ} (f : A → Bool) where
  pub all-All : (xs : List A) → all f xs ≡ true → All (λ x. f x ≡ true) xs
  all-All [] h = tt
  all-All (x ∷ xs) h = let (a, b) = both_true (f x) (all f xs) h in (a, all-All xs b)

  pub All-all : (xs : List A) → All (λ x. f x ≡ true) xs → all f xs ≡ true
  All-all [] h = refl
  All-all (x ∷ xs) h = and_true (f x) (all f xs) h.0 (All-all xs h.1)

  pub all-append : (xs ys : List A) → all f (xs ++ ys) ≡ (all f xs && all f ys)
  all-append [] ys = refl
  all-append (x ∷ xs) ys = ground (arith, all-append xs ys)

-- What holds under a Boolean condition.
pub met : (required ok : Bool) → (not required || ok) ≡ true → required ≡ true → ok ≡ true
met true ok h e = h
met false ok h e = absurd (cc)

pub meets : (required ok : Bool) → (required ≡ true → ok ≡ true) → (not required || ok) ≡ true
meets true ok h = h refl
meets false ok h = refl

module _ {A : Type 0} where
  -- Membership, by recursion.
  abbrev pub Member : A → List A → Type 0
  Member a [] = ⊥
  Member a (x ∷ xs) = (x ≡ a) ⊎ Member a xs

  pub All-Member {κ} : (P : A → Type κ) (a : A) (xs : List A) → All P xs → Member a xs → P a
  All-Member P a [] h m = absurd m
  All-Member P a (x ∷ xs) h (inl e) = subst P e h.0
  All-Member P a (x ∷ xs) h (inr m) = All-Member P a xs h.1 m
