-- ===== src/Api/Health.antt =====
-- sphere/src/api/health.rs
use intellisphere.Common.{String, ◌≡◌, refl, Bool, true, false, Result, ok, err, if◌then◌else◌}
use intellisphere.Common.Text.{◌<>◌}
use intellisphere.Core
use intellisphere.Core.{CoreClient}

pub record ComponentHealth : Type 0 where
  pub healthy : Bool
  pub message : String

-- `HealthResponse` of the endpoint; that of the protocol stands in `Core`.
pub record HealthResponse : Type 0 where
  pub status : String
  pub sphere : ComponentHealth
  pub core : ComponentHealth

module _ {Status : Type 0} (message_of : Status → String) where
  unfoldable pub core_health : Result Core.HealthResponse Status → ComponentHealth
  core_health (ok resp) = record { healthy = resp.healthy; message = resp.message }
  core_health (err e) = record { healthy = false; message = "Core unreachable: " <> message_of e }

  unfoldable pub overall : ComponentHealth → HealthResponse
  overall core = record {
    status = if core.healthy then "healthy" else "degraded";
    sphere = record { healthy = true; message = "OK" };
    core = core;
  }

  unfoldable pub health : {Chunk : Type 0} → CoreClient Chunk Status → HealthResponse
  unfolding core_health overall
  health c = overall (core_health (Core.health c))

  abbrev pub Reports : Result Core.HealthResponse Status → HealthResponse → Type 0
  Reports (ok resp) r =
      (r.status ≡ (if resp.healthy then "healthy" else "degraded"))
      × (r.core.healthy ≡ resp.healthy)
      × (r.core.message ≡ resp.message)
  Reports (err e) r =
      (r.status ≡ "degraded")
      × (r.core.healthy ≡ false)
      × (r.core.message ≡ "Core unreachable: " <> message_of e)

  overall-Reports :
      (answer : Result Core.HealthResponse Status) → Reports answer (overall (core_health answer))
  unfolding overall core_health
  overall-Reports (ok resp) = (refl, refl, refl)
  overall-Reports (err e) = (refl, refl, refl)

  -- The service answers a health check whatever becomes of the Core: it is healthy exactly when the
  -- Core answers and says that it is, and degraded otherwise; the Core's own message is passed on,
  -- and a Core that cannot be reached is reported with the status's message. The Sphere itself
  -- always reports that it is healthy.
  pub health-Reports :
      {Chunk : Type 0} (c : CoreClient Chunk Status)
      → Reports (Core.health c) (health c) × ((health c).sphere.healthy ≡ true)
  unfolding health overall
  health-Reports c = (overall-Reports (Core.health c), refl)
