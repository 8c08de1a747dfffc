-- ===== src/Workflow/Waves/Lists.antt =====
-- What the loop's list and map operations do to membership and length.
use bm_agents_world.Common.{
  ℕ, ◌≤◌, ◌<◌, String, Bool, true, false, ◌≡◌, refl, sym, ◌∙◌, ap, some, List, [], ◌∷◌, all, keep,
  includes, length, sort_by, insert_by, if◌then◌else◌, ◌||◌, ◌&&◌, ◌==◌, eq_iff, arith, Bool-cases,
  inl, inr,
}
use bm_agents_world.Common.Dict.{Dict, get, set, get-set}
use bm_agents_world.Workflow.Waves.{mark}

includes-insert_by :
    (le : String → String → Bool) (x : String) (ys : List String) (k : String)
    → includes (insert_by le x ys) k ≡ (x == k || includes ys k)
unfolding insert_by
includes-insert_by le x [] k = refl
includes-insert_by le x (y ∷ ys) k = ground (arith, includes-insert_by le x ys k)

-- Sorting keeps the elements.
pub includes-sort_by :
    (le : String → String → Bool) (xs : List String) (k : String)
    → includes (sort_by le xs) k ≡ includes xs k
unfolding sort_by
includes-sort_by le [] k = refl
includes-sort_by le (x ∷ xs) k =
    includes-insert_by le x (sort_by le xs) k ∙ ap (λ b. x == k || b) (includes-sort_by le xs k)

keep_head : (p : String → Bool) (x k : String) (b : Bool) → (x == k) ≡ true → p x ≡ b → p k ≡ b
keep_head p x k b h e = ap p (sym ((eq_iff x k).0 h)) ∙ e

pub includes-keep :
    (p : String → Bool) (xs : List String) (k : String)
    → includes (keep p xs) k ≡ (includes xs k && p k)
includes-keep p [] k = refl
includes-keep p (x ∷ xs) k =
    ground (arith, includes-keep p xs k, keep_head p x k true, keep_head p x k false)

pub get-mark :
    (ids : List String) (wave : ℕ) (m : Dict ℕ) (k : String)
    → get k (mark ids wave m) ≡ (if includes ids k then some wave else get k m)
unfolding mark
get-mark [] wave m k = refl
get-mark (id ∷ ids) wave m k =
    ground (arith, get-mark ids wave (set id wave m) k, get-set id k wave m)

pub length-keep-le : (p : String → Bool) (xs : List String) → length (keep p xs) ≤ length xs
length-keep-le p [] = omega arith
length-keep-le p (x ∷ xs) = ground (arith, length-keep-le p xs)

-- A list gets shorter when one of its elements goes.
pub length-keep-lt :
    (p : String → Bool) (xs : List String) (k : String)
    → includes xs k ≡ true
    → p k ≡ false
    → length (keep p xs) < length xs
length-keep-lt p [] k h e = cc
length-keep-lt p (x ∷ xs) k h e =
    ground (
      arith,
      length-keep-lt p xs k,
      length-keep-le p xs,
      keep_head p x k true,
      keep_head p x k false,
    )

-- `every` at one element.
pub all-includes :
    (p : String → Bool) (xs : List String) (k : String)
    → all p xs ≡ true
    → includes xs k ≡ true
    → p k ≡ true
all-includes p [] k h e = cc
all-includes p (x ∷ xs) k h e =
    ground (arith, all-includes p xs k, keep_head p x k true, keep_head p x k false)

-- Where `every` fails, an element fails.
pub all_fails :
    (p : String → Bool) (xs : List String)
    → all p xs ≡ false
    → (k : String) × (includes xs k ≡ true) × (p k ≡ false)
all_fails p [] h = cc
all_fails p (x ∷ xs) h = elim (Bool-cases (p x)) [
  | inr e ↦ (x, ground (arith, eq_iff x x), e)
  | inl e ↦ let (k, inside, fails) = all_fails p xs (ground arith) in (k, ground arith, fails)
]
