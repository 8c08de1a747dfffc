-- ===== src/Environment.antt =====
-- The environment variables of the process and the texts in them: `trim`, `split(",")` and the
-- function `csv` of apps/agent-window/src/server/platform/request-identity.ts.
pub mod Lists
use Prim.Native.Char.{Char, code}
use bm_agents_world.Common.{
  ℕ, String, Bool, true, false, not, ◌&&◌, ◌||◌, Option, none, some, List, [], ◌∷◌, map, keep, leb,
  nat_eq, if◌then◌else◌, or_default, ◌==◌,
}

-- `process.env`; `toLowerCase`, which follows the tables of Unicode; and the text of a number.
pub record Process : Type 0 where
  pub env : String → Option String
  pub lower : String → String
  pub decimal : ℕ → String

-- The characters that `trim` removes: the white space and the line ends of ECMAScript.
abbrev is_space : ℕ → Bool
is_space n =
    (leb 9 n && leb n 13)
    || nat_eq n 32
    || nat_eq n 160
    || nat_eq n 5760
    || (leb 8192 n && leb n 8202)
    || nat_eq n 8232
    || nat_eq n 8233
    || nat_eq n 8239
    || nat_eq n 8287
    || nat_eq n 12288
    || nat_eq n 65279

-- A text is falsy where it is empty.
abbrev pub is_empty : String → Bool
is_empty String.[] = true
is_empty (String.◌∷◌ c s) = false

unfoldable pub trim_start : String → String
trim_start String.[] = String.[]
trim_start (String.◌∷◌ c s) = if is_space (code c) then trim_start s else String.◌∷◌ c s

unfoldable pub trim_end : String → String
trim_end String.[] = String.[]
trim_end (String.◌∷◌ c s) =
    let rest = trim_end s in
    if is_space (code c) && is_empty rest then String.[] else String.◌∷◌ c rest

-- `String.prototype.trim`
unfoldable pub trim : String → String
unfolding trim_start trim_end
trim s = trim_end (trim_start s)

abbrev begin_first : Char → List String → List String
begin_first c [] = String.◌∷◌ c String.[] ∷ []
begin_first c (s ∷ ss) = String.◌∷◌ c s ∷ ss

-- `split(",")`
unfoldable pub split_commas : String → List String
split_commas String.[] = String.[] ∷ []
split_commas (String.◌∷◌ c s) =
    let rest = split_commas s in
    if nat_eq (code c) b',' then String.[] ∷ rest else begin_first c rest

-- `csv`
unfoldable pub csv : Option String → List String
unfolding trim split_commas
csv value = keep (λ s. not (is_empty s)) (map trim (split_commas (or_default value "")))

-- `a || b` at a value that may be undefined
abbrev pub or_text : Option String → String → String
or_text none d = d
or_text (some s) d = if is_empty s then d else s

-- `value?.trim()`
abbrev pub trimmed : Option String → Option String
trimmed none = none
trimmed (some s) = some (trim s)

abbrev pub lowered : Process → Option String → Option String
lowered p none = none
lowered p (some s) = some (p.lower s)

-- `process.env[name]?.trim().toLowerCase() === text`
abbrev pub is_text : Option String → String → Bool
is_text none t = false
is_text (some s) t = s == t

abbrev pub env_is : Process → String → String → Bool
env_is p name text = is_text (lowered p (trimmed (p.env name))) text

-- `booleanEnv` of platform/deployment-readiness.ts and platform/pilot-validation.ts
unfoldable pub boolean_env : Process → String → Bool → Bool
unfolding trim
boolean_env p name fallback = elim (lowered p (trimmed (p.env name))) [
  | none ↦ fallback
  | some raw ↦ if is_empty raw then fallback else raw == "true" || raw == "1" || raw == "yes"
]

-- `Boolean(value)` at a text that may be undefined
abbrev pub truthy : Option String → Bool
truthy none = false
truthy (some s) = not (is_empty s)
