-- ===== src/Application/Dependencies.antt =====
-- apps/api/app/infrastructure/dependencies.py and `ready` of apps/api/app/main.py. What the servers that
-- are asked answer is a parameter.
use placement_assistant.Prelude.{
  ℕ, String, Bool, true, false, ◌||◌, not, Result, ok, err, if◌then◌else◌,
}

-- How a call of a dependency ends within the time limit; an exception, or the limit, is an error.
pub record Probes : Type 0 where
  pub postgres : Result (Unit {0})
  pub cache : Result (Unit {0})
  pub vector : Result (Unit {0})

pub data State : Type 0 where
  up down : State

pub record Checks : Type 0 where
  pub postgres : State
  pub redis : State
  pub qdrant : State

unfoldable pub probe : Result (Unit {0}) → State
probe (ok _) = up
probe (err _) = down

unfoldable pub check : Probes → Checks
check d = record { postgres = probe d.postgres; redis = probe d.cache; qdrant = probe d.vector }

unfoldable pub is_up : State → Bool
is_up up = true
is_up down = false

-- The answer of `ready`, with its status.
pub record Readiness : Type 0 where
  pub status_code : ℕ
  pub status : String
  pub dependencies : Checks
  pub degraded : Bool

unfoldable pub readiness : Checks → Readiness
readiness checks = record {
  status_code = if is_up checks.postgres then 200 else 503;
  status = if is_up checks.postgres then "ready" else "not_ready";
  dependencies = checks;
  degraded = not (is_up checks.postgres) || not (is_up checks.redis) || not (is_up checks.qdrant);
}

unfoldable pub ready : Probes → Readiness
ready d = readiness (check d)
