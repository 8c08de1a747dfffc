-- ===== src/Environment/Lists.antt =====
-- What `csv` gives.
use Prim.Native.Char.{code}
use bm_agents_world.Common.{
  String, false, not, ◌&&◌, ◌≡◌, refl, ap, ◌∙◌, Option, List, [], ◌∷◌, map, keep, All, Bool-cases,
  inl, inr, or_default,
}
use bm_agents_world.Environment.{is_space, is_empty, trim_start, trim_end, trim, split_commas, csv}

-- No space in front.
abbrev IsFlush : String → Type 0
IsFlush String.[] = Unit
IsFlush (String.◌∷◌ c s) = is_space (code c) ≡ false

trim_start-IsFlush : (s : String) → IsFlush (trim_start s)
unfolding trim_start
trim_start-IsFlush String.[] = tt
trim_start-IsFlush (String.◌∷◌ c s) = elim (Bool-cases (is_space (code c))) [
  | inl h ↦ rw h (trim_start-IsFlush s)
  | inr h ↦ rw h h
]

trim_start_flush : (s : String) → IsFlush s → trim_start s ≡ s
unfolding trim_start
trim_start_flush String.[] h = refl
trim_start_flush (String.◌∷◌ c s) h = rw h refl

trim_end-IsFlush : (s : String) → IsFlush s → IsFlush (trim_end s)
unfolding trim_end
trim_end-IsFlush String.[] h = tt
trim_end-IsFlush (String.◌∷◌ c s) h = rw h h

trim_end_idem : (s : String) → trim_end (trim_end s) ≡ trim_end s
unfolding trim_end
trim_end_idem String.[] = refl
trim_end_idem (String.◌∷◌ c s) = elim (Bool-cases (is_space (code c) && is_empty (trim_end s))) [
  | inl h ↦ rw h refl
  | inr h ↦ rw (h, trim_end_idem s, h) refl
]

trim_idem : (s : String) → trim (trim s) ≡ trim s
unfolding trim
trim_idem s =
    ap trim_end (
      trim_start_flush (trim_end (trim_start s))
        (trim_end-IsFlush (trim_start s) (trim_start-IsFlush s)))
    ∙ trim_end_idem (trim_start s)

-- An item that is not empty and has no space around it.
abbrev pub IsClean : String → Type 0
IsClean s = (is_empty s ≡ false) × (trim s ≡ s)

keep-IsClean : (ss : List String) → All IsClean (keep (λ s. not (is_empty s)) (map trim ss))
keep-IsClean [] = tt
keep-IsClean (s ∷ ss) = elim (Bool-cases (is_empty (trim s))) [
  | inl h ↦ rw h (keep-IsClean ss)
  | inr h ↦ rw h ((h, trim_idem s), keep-IsClean ss)
]

pub csv-IsClean : (value : Option String) → All IsClean (csv value)
unfolding csv
csv-IsClean value = keep-IsClean (split_commas (or_default value ""))
