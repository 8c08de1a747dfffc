-- ===== src/Common/ObjectLiteral.antt =====
-- `object[name]` at an object literal, an object of JSON or one that is filled by assignments: such
-- an object also has the members of `Object.prototype`.
use Prim.Native.Nat.{ℕ}
use Prim.Native.String.{String}
use mathlib.Core.Path.{◌≡◌, refl}
use mathlib.Core.Bool.{Bool, false}
use mathlib.Core.Option.{Option, none, some}
use mathlib.Core.List.{[], ◌∷◌}
use bm_agents_world.Common.Tests.{is_some, truth_apart}
use bm_agents_world.Common.Dict.{Dict, get}

-- The members of `Object.prototype`, each with its property `length`: the number of parameters of
-- a function. All of them are truthy. `__proto__` is an object without a length, here 0.
abbrev pub object_prototype : Dict ℕ
object_prototype =
    ("constructor", 1)
    ∷ ("__defineGetter__", 2)
    ∷ ("__defineSetter__", 2)
    ∷ ("hasOwnProperty", 1)
    ∷ ("__lookupGetter__", 1)
    ∷ ("__lookupSetter__", 1)
    ∷ ("isPrototypeOf", 1)
    ∷ ("propertyIsEnumerable", 1)
    ∷ ("toString", 0)
    ∷ ("valueOf", 0)
    ∷ ("__proto__", 0)
    ∷ ("toLocaleString", 0)
    ∷ []

abbrev pub is_inherited : String → Bool
is_inherited name = is_some (get name object_prototype)

-- What an object has under a name: `inherited_value n` is a member of `Object.prototype` with the
-- length `n`.
pub data Looked {ℓ} (A : Type ℓ) : Type ℓ where
  undefined_value : Looked A
  own_value : A → Looked A
  inherited_value : ℕ → Looked A

abbrev pub looked_past {ℓ} : {A : Type ℓ} → Option ℕ → Looked A
looked_past none = undefined_value
looked_past (some n) = inherited_value n

abbrev pub looked {ℓ} : {A : Type ℓ} → Option A → Option ℕ → Looked A
looked none past = looked_past past
looked (some a) past = own_value a

unfoldable pub look {ℓ} : {A : Type ℓ} → String → Dict A → Looked A
look name object = looked (get name object) (get name object_prototype)

-- An object has nothing but its own under a name that is not inherited.
pub look_own {ℓ} :
    {A : Type ℓ} (name : String) (object : Dict A)
    → is_inherited name ≡ false
    → look name object ≡ looked (get name object) none
unfolding look
look_own name object h = past (get name object_prototype) h
  where
    past :
        (o : Option ℕ)
        → is_some o ≡ false
        → looked (get name object) o ≡ looked (get name object) none
    past none e = refl
    past (some n) e = absurd (truth_apart e)
