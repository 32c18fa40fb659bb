-- ===== src/RateLimit/Limiter.antt =====
-- sphere/src/rate_limit/limiter.rs. A call is one step: it holds each of its locks while it uses
-- the buckets under it. The clock is read where a bucket is made and where one is used, so a call
-- takes those readings.
pub mod Tiers
pub mod Calls
pub mod Eager
pub mod Instant
use intellisphere.Common.{
  ℕ, String, ◌≡◌, Bool, true, false, not, Option, none, some, List, [], ◌∷◌, unwrap_or,
  if◌then◌else◌,
}
use intellisphere.Common.Dict.{Dict, lookup, insert}
use intellisphere.Config.{RateLimitRule, RateLimitConfig}
use intellisphere.Common.Float.{Float}
use intellisphere.RateLimit.TokenBucket
use intellisphere.RateLimit.TokenBucket.{TokenBucket, try_acquire, remaining}

pub record RateLimitResult : Type 0 where
  pub allowed : Bool
  pub remaining : ℕ
  pub limit : ℕ

pub record RateLimiter (F : Type 0) : Type 0 where
  pub global : TokenBucket F
  pub global_rule : RateLimitRule
  pub per_identity : Dict (TokenBucket F)
  pub per_identity_rule : RateLimitRule
  pub per_tool : Dict (TokenBucket F)
  pub per_tool_rules : Dict RateLimitRule

-- The times that one use of a bucket reads: on making it, in `try_acquire` and in `remaining`.
pub record Readings : Type 0 where
  pub made : ℕ
  pub tried : ℕ
  pub asked : ℕ

module _ {F : Type 0} ⦃fl : Float F⦄ where
  abbrev pub bucket_of : RateLimitRule → ℕ → (TokenBucket F)
  bucket_of rule now = TokenBucket.new rule.requests_per_minute rule.burst now

  unfoldable pub from_config : RateLimitConfig → ℕ → RateLimiter F
  from_config config now = record {
    global = bucket_of config.global now;
    global_rule = config.global;
    per_identity = [];
    per_identity_rule = config.per_identity;
    per_tool = [];
    per_tool_rules = config.per_tool;
  }

  -- `try_acquire(1)` and then `remaining()`.
  unfoldable pub use_bucket :
      RateLimitRule → Readings → (TokenBucket F) → RateLimitResult × TokenBucket F
  use_bucket rule t b =
      let (allowed, b₁) = try_acquire t.tried 1 b in
      let (left, b₂) = remaining t.asked b₁ in
      (record { allowed = allowed; remaining = left; limit = rule.requests_per_minute }, b₂)

  -- `entry(key).or_insert_with(|| TokenBucket::new(..))`
  abbrev pub entry_or_new : String → RateLimitRule → ℕ → Dict (TokenBucket F) → (TokenBucket F)
  entry_or_new key rule now buckets = unwrap_or (lookup key buckets) (bucket_of rule now)

  -- `check_identity` is the second half of `check_request`.
  check_identity : String → Readings → RateLimiter F → RateLimitResult × RateLimiter F
  check_identity sub t l =
      let (result, b) =
        use_bucket l.per_identity_rule t
          (entry_or_new sub l.per_identity_rule t.made l.per_identity) in
      (result, record l { per_identity = insert sub b l.per_identity })

  unfoldable pub check_request :
      String → Readings → Readings → RateLimiter F → RateLimitResult × RateLimiter F
  unfolding check_identity
  check_request sub t_global t_identity l =
      let (global_result, g) = use_bucket l.global_rule t_global l.global in
      let l' = record l { global = g } in
      if not global_result.allowed then (global_result, l') else check_identity sub t_identity l'

  check_ruled :
      String
      → Option RateLimitRule
      → Readings
      → RateLimiter F
      → Option RateLimitResult × RateLimiter F
  check_ruled tool none t l = (none, l)
  check_ruled tool (some rule) t l =
      let (result, b) = use_bucket rule t (entry_or_new tool rule t.made l.per_tool) in
      (some result, record l { per_tool = insert tool b l.per_tool })

  unfoldable pub check_tool :
      String → Readings → RateLimiter F → Option RateLimitResult × RateLimiter F
  unfolding check_ruled
  check_tool tool t l = check_ruled tool (lookup tool l.per_tool_rules) t l
