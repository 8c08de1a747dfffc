-- ===== src/Deployment/Pilot/Replicas.antt =====
-- The bounds of a number that the environment sets.
use bm_agents_world.Common.{ℕ, ◌≤◌, Option, none, some, arith}
use bm_agents_world.Deployment.Pilot.{Rounded, natural, negative, bounded_integer}

-- Where the fallback lies between the bounds, the number that is read does too, whatever the
-- variable holds: a number inside or outside the bounds, a negative one, or none at all.
pub bounded_integer_within :
    (value : Option Rounded) (fallback low high : ℕ)
    → low ≤ fallback
    → fallback ≤ high
    → (low ≤ bounded_integer value fallback low high)
      × (bounded_integer value fallback low high ≤ high)
unfolding bounded_integer
bounded_integer_within none fallback low high h k = (h, k)
bounded_integer_within (some negative) fallback low high h k = (omega arith, omega arith)
bounded_integer_within (some (natural n)) fallback low high h k = (ground arith, ground arith)
