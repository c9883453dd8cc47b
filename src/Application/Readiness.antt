-- ===== src/Application/Readiness.antt =====
-- When `ready` of apps/api/app/main.py says that the service is ready.
use placement_assistant.Prelude.{false, ok, ◌≡◌, ◌↔◌, arith}
use placement_assistant.Application.Dependencies.{Probes, probe, check, is_up, readiness, ready}

-- The service is ready exactly when the database answers, whatever the cache and the index do; and it is
-- degraded exactly when one of the three does not answer.
pub ready_iff :
    (d : Probes)
    → ((ready d).status_code ≡ 200 ↔ d.postgres ≡ ok tt)
      × ((ready d).degraded ≡ false
          ↔ ((d.postgres ≡ ok tt) × (d.cache ≡ ok tt) × (d.vector ≡ ok tt)))
unfolding ready readiness check probe is_up
ready_iff d = ground arith
