-- ===== src/RateLimit/TokenBucket.antt =====
-- sphere/src/rate_limit/token_bucket.rs, over the machine's `f64`. A call takes the time that
-- `Instant::now()` reads in it, in nanoseconds; `duration_since` an earlier time is zero, as `-` on
-- ℕ is.
pub mod Bounds
use intellisphere.Common.{ℕ, ◌-◌, Bool, true, false, if◌then◌else◌}
use intellisphere.Common.Float.{Float, min_of}

pub record TokenBucket (F : Type 0) : Type 0 where
  pub capacity : F
  pub refill_rate : F
  pub tokens : F
  pub last_refill : ℕ

module _ {F : Type 0} ⦃fl : Float F⦄ where
  unfoldable pub new : ℕ → ℕ → ℕ → TokenBucket F
  new requests_per_minute burst now = record {
    capacity = fl.nat burst;
    refill_rate = fl.div (fl.nat requests_per_minute) (fl.nat 60);
    tokens = fl.nat burst;
    last_refill = now;
  }

  unfoldable pub refill : ℕ → TokenBucket F → TokenBucket F
  refill now b =
      let elapsed = fl.seconds (now - b.last_refill) in
      record b {
        tokens = min_of (fl.add b.tokens (fl.mul elapsed b.refill_rate)) b.capacity;
        last_refill = now;
      }

  unfoldable pub try_acquire : ℕ → ℕ → TokenBucket F → Bool × TokenBucket F
  try_acquire now count b =
      let filled = refill now b in
      let needed = fl.nat count in
      if fl.le needed filled.tokens
      then (true, record filled { tokens = fl.sub filled.tokens needed })
      else (false, filled)

  unfoldable pub remaining : ℕ → TokenBucket F → ℕ × TokenBucket F
  remaining now b = let filled = refill now b in (fl.to_u32 filled.tokens, filled)
