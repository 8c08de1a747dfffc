-- ===== src/Packs/Lock.antt =====
-- apps/agent-window/src/server/pack-lock.ts: the lock of the approved packs, and drift from it. The
-- hashes of the components of a pack are the entries of the object that holds them. `compiled` is
-- the lookup of the pack registry, and `le a b` is `a.localeCompare(b) <= 0`. Reading and writing
-- the lock as JSON is not modelled.
pub mod Drift
use bm_agents_world.Common.{
  ℕ, String, Bool, true, false, not, ◌&&◌, Option, none, some, List, [], ◌∷◌, ◌++◌, map, keep,
  sort_by, if◌then◌else◌, ◌==◌,
}
use bm_agents_world.Common.Dict.{Dict, get, set, keys}
use bm_agents_world.Common.ObjectLiteral.{Looked, undefined_value, own_value, inherited_value, look}
use bm_agents_world.Deployment.Pilot.{distinct}

pub record PackLockEntry : Type 0 where
  pub version : String
  pub content_hash : String
  pub components : Option (Dict String)

pub record PackLock : Type 0 where
  pub lock_version : ℕ
  pub packs : Dict PackLockEntry

pub record PackDriftEntry : Type 0 where
  pub id : String
  pub expected : Option String
  pub actual : Option String
  pub components : Option (List String)

pub record PackDrift : Type 0 where
  pub ok : Bool
  pub added : List PackDriftEntry
  pub removed : List PackDriftEntry
  pub changed : List PackDriftEntry

-- The parts of a pack that the lock keeps.
pub record LockedPack : Type 0 where
  pub id : String
  pub version : String

pub record CompiledHashes : Type 0 where
  pub content_hash : String
  pub components : Dict String

-- The loop of `buildPackLock`.
unfoldable pub lock_packs :
    (String → Option CompiledHashes) → Dict PackLockEntry → List LockedPack → Dict PackLockEntry
lock_packs compiled packs [] = packs
lock_packs compiled packs (pack ∷ rest) = elim (compiled pack.id) [
  | none ↦ lock_packs compiled packs rest
  | some c ↦
      lock_packs compiled
        (set pack.id
          (record {
            version = pack.version;
            content_hash = c.content_hash;
            components = some c.components;
          })
          packs)
        rest
]

-- `buildPackLock`
unfoldable pub build_pack_lock :
    (String → String → Bool) → (String → Option CompiledHashes) → List LockedPack → PackLock
unfolding lock_packs sort_by
build_pack_lock le compiled packs = record {
  lock_version = 2;
  packs = lock_packs compiled [] (sort_by (λ a b. le a.id b.id) packs);
}

-- `===` at texts that may be undefined
abbrev same_text : Option String → Option String → Bool
same_text none none = true
same_text (some a) (some b) = a == b
same_text _ _ = false

-- `changedComponents`; `before_unit a b` says that `a` is not after `b` in the order of `sort()`.
unfoldable pub changed_components :
    (String → String → Bool) → Option (Dict String) → Option (Dict String) → List String
unfolding sort_by distinct
changed_components before_unit (some before) (some after) = sort_by before_unit (
    keep (λ k. not (same_text (get k before) (get k after)))
      (distinct (λ a b. a == b) (keys before ++ keys after)))
changed_components before_unit _ _ = []

-- A lock's entry is truthy, and so is everything that an object inherits.
abbrev pub is_found : Looked PackLockEntry → Bool
is_found undefined_value = false
is_found _ = true

module _ (before_unit : String → String → Bool) where
  -- The first loop of `diffPackLock`, over the packs of the current lock. An inherited value has
  -- neither a hash nor components, so it differs.
  unfoldable pub diff_current :
      Dict PackLockEntry → Dict PackLockEntry → (List PackDriftEntry × List PackDriftEntry)
  unfolding changed_components look
  diff_current baseline [] = ([], [])
  diff_current baseline ((id, entry) ∷ packs) =
      let rest = diff_current baseline packs in
      elim (look id baseline) [
        | undefined_value ↦ (
          record { id = id; expected = none; actual = some entry.content_hash; components = none }
              ∷ rest.0,
          rest.1,
        )
        | inherited_value n ↦ (
          rest.0,
          record {
            id = id;
            expected = none;
            actual = some entry.content_hash;
            components = some (changed_components before_unit none entry.components);
          }
              ∷ rest.1,
        )
        | own_value prior ↦ if prior.content_hash == entry.content_hash then rest else (
          rest.0,
          record {
            id = id;
            expected = some prior.content_hash;
            actual = some entry.content_hash;
            components = some (changed_components before_unit prior.components entry.components);
          }
              ∷ rest.1,
        )
      ]

  -- The second loop, over the packs of the baseline.
  unfoldable pub diff_baseline : Dict PackLockEntry → Dict PackLockEntry → List PackDriftEntry
  unfolding look
  diff_baseline current [] = []
  diff_baseline current ((id, entry) ∷ packs) =
      let rest = diff_baseline current packs in
      if is_found (look id current)
      then rest
      else record { id = id; expected = some entry.content_hash; actual = none; components = none }
        ∷ rest

  abbrev pub is_none : List PackDriftEntry → Bool
  is_none [] = true
  is_none (x ∷ xs) = false

  -- `diffPackLock`
  unfoldable pub diff_pack_lock : PackLock → PackLock → PackDrift
  unfolding diff_current diff_baseline
  diff_pack_lock baseline current =
      let found = diff_current baseline.packs current.packs in
      let removed = diff_baseline current.packs baseline.packs in
      record {
        ok = is_none found.0 && is_none removed && is_none found.1;
        added = found.0;
        removed = removed;
        changed = found.1;
      }
