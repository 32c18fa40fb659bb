-- ===== src/RateLimit/Limiter/Tiers.antt =====
-- How the tiers of the limiter act together, and what a call leaves alone.
use intellisphere.Common.{String, ◌≡◌, refl, false, ◌&&◌, arith, str_eq}
use intellisphere.Common.Dict.{lookup, lookup-insert}
use intellisphere.Common.Float.{Float}
use intellisphere.Config.{RateLimitRule}
use intellisphere.RateLimit.TokenBucket.{TokenBucket, try_acquire, remaining}
use intellisphere.RateLimit.Limiter.{
  RateLimiter, Readings, use_bucket, entry_or_new, check_request, check_tool,
}

module _ {F : Type 0} ⦃fl : Float F⦄ where
  allowed-use_bucket :
      (rule : RateLimitRule) (t : Readings) (b : TokenBucket F)
      → (use_bucket rule t b).0.allowed ≡ (try_acquire t.tried 1 b).0
  unfolding use_bucket
  allowed-use_bucket rule t b = refl

  -- A request passes exactly when the global bucket and then the caller's own, made full where the
  -- caller has none, each grant a token. The global bucket is charged whatever the caller's own
  -- bucket says, and a request that it refuses leaves the callers' buckets alone.
  pub check_request-allowed :
      (sub : String) (t u : Readings) (l : RateLimiter F)
      → ((check_request sub t u l).0.allowed ≡ (
          (try_acquire t.tried 1 l.global).0
          && (try_acquire u.tried 1
              (entry_or_new sub l.per_identity_rule u.made l.per_identity)).0))
        × ((check_request sub t u l).1.global
            ≡ (remaining t.asked (try_acquire t.tried 1 l.global).1).1)
        × ((try_acquire t.tried 1 l.global).0 ≡ false
            → (check_request sub t u l).1.per_identity ≡ l.per_identity)
  unfolding check_request use_bucket
  check_request-allowed sub t u l = (ground arith, ground arith, λ h. ground arith)

  -- A call for one caller leaves every other caller's bucket, and all the tools' buckets, as they
  -- were, and a call for one tool every other tool's and all the callers'.
  pub check_isolated :
      (sub other : String) (t u : Readings) (l : RateLimiter F)
      → str_eq sub other ≡ false
      → (lookup other (check_request sub t u l).1.per_identity ≡ lookup other l.per_identity)
        × ((check_request sub t u l).1.per_tool ≡ l.per_tool)
        × (lookup other (check_tool sub t l).1.per_tool ≡ lookup other l.per_tool)
        × ((check_tool sub t l).1.per_identity ≡ l.per_identity)
        × ((check_tool sub t l).1.global ≡ l.global)
  unfolding check_request check_tool
  check_isolated sub other t u l ne = (
    grind (arith, lookup-insert),
    ground arith,
    grind (arith, lookup-insert),
    ground arith,
    ground arith,
  )
