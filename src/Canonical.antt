-- ===== src/Canonical.antt =====
-- apps/agent-window/src/server/platform/canonical.ts, and the equal functions at the top of the
-- two brokers: the canonical form of a JSON value. `le a b` stands for `a.localeCompare(b) <= 0`,
-- which the JavaScript engine provides.
use bm_agents_world.Common.{String, Bool, if◌then◌else◌}
use bm_agents_world.Json.{
  Json, null, boolean, number, text, arr, obj, Items, nil, cons, Fields, end, field,
}

module _ (le : String → String → Bool) where
  -- One step of a stable sort by key: an entry goes before the entries of the same key.
  unfoldable pub insert_field : String → Json → Fields → Fields
  insert_field k v end = field k v end
  insert_field k v (field j w fs) =
      if le k j then field k v (field j w fs) else field j w (insert_field k v fs)

  -- The source sorts the entries and then maps their values; since the order looks at the keys
  -- alone, the values may be mapped first.
  unfoldable mutual
    unfolding insert_field

    pub canonicalize : Json → Json
    canonicalize null = null
    canonicalize (boolean b) = boolean b
    canonicalize (number n) = number n
    canonicalize (text s) = text s
    canonicalize (arr xs) = arr (canonicalize_items xs)
    canonicalize (obj fs) = obj (canonicalize_fields fs)

    pub canonicalize_items : Items → Items
    canonicalize_items nil = nil
    canonicalize_items (cons x xs) = cons (canonicalize x) (canonicalize_items xs)

    pub canonicalize_fields : Fields → Fields
    canonicalize_fields end = end
    canonicalize_fields (field k v fs) = insert_field k (canonicalize v) (canonicalize_fields fs)
