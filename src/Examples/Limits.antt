-- ===== src/Examples/Limits.antt =====
-- Witnesses for the modules of RateLimit and Policy.
use intellisphere.Common.{ℕ, ◌+◌, String, refl, ◌≡◌, true, false, List, [], ◌∷◌, arith}
use intellisphere.Config.{default_rate_limit}
use intellisphere.RateLimit.TokenBucket
use intellisphere.RateLimit.TokenBucket.{TokenBucket, try_acquire}
use intellisphere.RateLimit.TokenBucket.Bounds.{try_acquire_after_wait}
use intellisphere.RateLimit.Limiter
use intellisphere.RateLimit.Limiter.{Readings}
use intellisphere.Policy.Engine.{
  Policy, evaluate, global, tool, require_mfa, max_tool_calls_per_session, block, flag,
  tool_call_requested,
}
use intellisphere.Common.{map}
use intellisphere.Config.{RateLimitConfig}
use intellisphere.RateLimit.Limiter.Calls
use intellisphere.RateLimit.Limiter.Calls.{answers, eager, eager_answers}
use intellisphere.RateLimit.Limiter.Eager.{answers-from_config}
use intellisphere.Common.Dict.{lookup}
use intellisphere.RateLimit.Limiter.Tiers.{check_isolated}
use intellisphere.RateLimit.Limiter.Instant.{at_once, allowed_of, granted, granted-from_config}
use intellisphere.Policy.Engine.Reports.{notice, breaches, evaluate-breaches}
use intellisphere.Examples.Data.{fresh, tenths_float}

abbrev bucket : TokenBucket ℕ
bucket = TokenBucket.new 60 2 0

abbrev empty_bucket : TokenBucket ℕ
empty_bucket = record bucket { tokens = 0 }

try_acquire_after_wait_example : (try_acquire (0 + 1000000000) 1 empty_bucket).0 ≡ true
unfolding TokenBucket.new
try_acquire_after_wait_example = try_acquire_after_wait empty_bucket 1000000000 1 refl refl refl

abbrev at : ℕ → Readings
at n = record { made = n; tried = n; asked = n }

abbrev policies : List Policy
policies =
    record { name = "mfa"; scope = tool "wipe"; rules = require_mfa ∷ []; action = block }
    ∷ record {
      name = "calls";
      scope = global;
      rules = max_tool_calls_per_session 5 ∷ [];
      action = flag;
    }
    ∷ []

evaluate-breaches_example :
    map notice (evaluate policies fresh (tool_call_requested "wipe"))
    ≡ breaches policies fresh (tool_call_requested "wipe")
evaluate-breaches_example = evaluate-breaches policies fresh (tool_call_requested "wipe")

abbrev limited : RateLimitConfig
limited = record default_rate_limit {
  per_tool = ("wipe", record { requests_per_minute = 6; burst = 1 }) ∷ [];
}

abbrev limiter_calls : List Calls.Call
limiter_calls =
    Calls.request "alice" (at 1) (at 2)
    ∷ Calls.tool_call "wipe" (at 3)
    ∷ Calls.tool_call "lookup" (at 4)
    ∷ Calls.tool_call "wipe" (at 5)
    ∷ Calls.request "bob" (at 6) (at 7)
    ∷ []

answers-from_config_example :
    answers (Limiter.from_config {F = ℕ} limited 0) limiter_calls
    ≡ eager_answers limited (eager {F = ℕ} limited 0) limiter_calls
answers-from_config_example = answers-from_config ℕ limited 0 limiter_calls

abbrev small : RateLimitConfig
small = record default_rate_limit {
  global = record { requests_per_minute = 60; burst = 3 };
  per_identity = record { requests_per_minute = 60; burst = 2 };
}

abbrev callers : List String
callers = "alice" ∷ "alice" ∷ "alice" ∷ "bob" ∷ []

check_isolated_example :
    let l = Limiter.from_config {F = ℕ} limited 0 in
    (lookup "bob" (Limiter.check_request "alice" (at 1) (at 2) l).1.per_identity
      ≡ lookup "bob" l.per_identity)
    × ((Limiter.check_request "alice" (at 1) (at 2) l).1.per_tool ≡ l.per_tool)
    × (lookup "bob" (Limiter.check_tool "alice" (at 1) l).1.per_tool ≡ lookup "bob" l.per_tool)
    × ((Limiter.check_tool "alice" (at 1) l).1.per_identity ≡ l.per_identity)
    × ((Limiter.check_tool "alice" (at 1) l).1.global ≡ l.global)
check_isolated_example =
    check_isolated "alice" "bob" (at 1) (at 2) (Limiter.from_config {F = ℕ} limited 0) refl

granted-from_config_example :
    map allowed_of (answers (Limiter.from_config {F = ℕ} small 7) (map (at_once 7) callers))
    ≡ granted 3 (λ sub. 2) callers
granted-from_config_example = granted-from_config ℕ small 7 callers (omega arith) (omega arith)

granted_test : granted 3 (λ sub. 2) callers ≡ true ∷ true ∷ false ∷ false ∷ []
granted_test = refl
