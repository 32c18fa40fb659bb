-- ===== src/RateLimit/Limiter/Calls.antt =====
-- A run of calls of the limiter, and the limiter that it is compared with: there everyone has had a
-- full bucket from the start.
use intellisphere.Common.{ℕ, String, not, Option, none, some, List, [], ◌∷◌, str_eq, if◌then◌else◌}
use intellisphere.Common.Dict.{lookup}
use intellisphere.Config.{RateLimitRule, RateLimitConfig}
use intellisphere.Common.Float.{Float}
use intellisphere.RateLimit.TokenBucket.{TokenBucket}
use intellisphere.RateLimit.Limiter.{
  RateLimiter, RateLimitResult, Readings, bucket_of, use_bucket, check_request, check_tool,
}

-- A table that answers for every key.
abbrev pub Buckets : Type 0 → Type 0
Buckets F = String → TokenBucket F

unfoldable pub update : {F : Type 0} → String → TokenBucket F → Buckets F → Buckets F
update key b buckets j = if str_eq key j then b else buckets j

pub record Eager (F : Type 0) : Type 0 where
  pub global : TokenBucket F
  pub per_identity : Buckets F
  pub per_tool : Buckets F

-- The rule of a tool that has none plays no part.
unfoldable pub rule_or_zero : Option RateLimitRule → RateLimitRule
rule_or_zero none = record { requests_per_minute = 0; burst = 0 }
rule_or_zero (some rule) = rule

-- A call and the times it reads.
pub data Call : Type 0 where
  request : (sub : String) (t_global t_identity : Readings) → Call
  tool_call : (tool : String) (t : Readings) → Call

module _ {F : Type 0} ⦃fl : Float F⦄ where
  unfoldable pub eager : RateLimitConfig → ℕ → Eager F
  unfolding rule_or_zero
  eager config now = record {
    global = bucket_of config.global now;
    per_identity = λ sub. bucket_of config.per_identity now;
    per_tool = λ tool. bucket_of (rule_or_zero (lookup tool config.per_tool)) now;
  }

  unfoldable pub eager_tool :
      Option RateLimitRule → String → Readings → Eager F → Option RateLimitResult × Eager F
  eager_tool none tool t a = (none, a)
  eager_tool (some rule) tool t a =
      let (result, b) = use_bucket rule t (a.per_tool tool) in
      (some result, record a { per_tool = update tool b a.per_tool })

  unfoldable pub eager_call : RateLimitConfig → Call → Eager F → Option RateLimitResult × Eager F
  unfolding eager_tool update
  eager_call config (request sub t u) a =
      let (global_result, g) = use_bucket config.global t a.global in
      let (result, b) = use_bucket config.per_identity u (a.per_identity sub) in
      if not global_result.allowed
      then (some global_result, record a { global = g })
      else (some result, record a { global = g; per_identity = update sub b a.per_identity })
  eager_call config (tool_call tool t) a = eager_tool (lookup tool config.per_tool) tool t a

  unfoldable pub call : Call → RateLimiter F → Option RateLimitResult × RateLimiter F
  call (request sub t u) l = let (result, l') = check_request sub t u l in (some result, l')
  call (tool_call tool t) l = check_tool tool t l

  abbrev pub answers : RateLimiter F → List Call → List (Option RateLimitResult)
  answers l [] = []
  answers l (c ∷ cs) = (call c l).0 ∷ answers (call c l).1 cs

  abbrev pub eager_answers : RateLimitConfig → Eager F → List Call → List (Option RateLimitResult)
  eager_answers config a [] = []
  eager_answers config a (c ∷ cs) =
      (eager_call config c a).0 ∷ eager_answers config (eager_call config c a).1 cs
