-- ===== src/RateLimit/Limiter/Instant.antt =====
-- The limiter within one instant.
use intellisphere.Common.{
  ℕ, suc, ◌-◌, ◌≤◌, ◌<◌, ◌^◌, String, ◌≡◌, refl, sym, ap, ◌∙◌, Bool, false, ◌&&◌, Option, none,
  some, List, [], ◌∷◌, map, leb, str_eq, Bool-cases, inl, inr, arith, if◌then◌else◌,
}
use intellisphere.Common.Float.{Float, min_of}
use intellisphere.Config.{RateLimitRule, RateLimitConfig}
use intellisphere.RateLimit.TokenBucket.{TokenBucket, new, refill, try_acquire, remaining}
use intellisphere.RateLimit.Limiter.{RateLimitResult, Readings, bucket_of, from_config, use_bucket}
use intellisphere.RateLimit.Limiter.Calls.{
  Eager, eager, Call, request, eager_call, answers, eager_answers, update,
}
use intellisphere.RateLimit.Limiter.Eager.{answers-from_config}

-- A request all of whose readings are of one instant.
abbrev pub readings_at : ℕ → Readings
readings_at now = record { made = now; tried = now; asked = now }

abbrev pub at_once : ℕ → String → Call
at_once now sub = request sub (readings_at now) (readings_at now)

abbrev pub allowed_of : Option RateLimitResult → Bool
allowed_of none = false
allowed_of (some r) = r.allowed

-- Who of a sequence of callers is let through by counting: a request takes one of all, and where
-- there was one, one of its caller's own.
abbrev pub granted : ℕ → (String → ℕ) → List String → List Bool
granted all own [] = []
granted all own (sub ∷ subs) =
    (leb 1 all && leb 1 (own sub))
    ∷ granted (all - 1)
        (if leb 1 all then (λ j. if str_eq sub j then own sub - 1 else own j) else own) subs

no_time : (now : ℕ) → now - now ≡ 0
no_time now = omega arith

module _ {F : Type 0} ⦃fl : Float F⦄ (now : ℕ) where
  -- The bucket was last filled now, and holds a whole number of tokens.
  record Holds (rule : RateLimitRule) (k : ℕ) (b : TokenBucket F) : Type 0 where
    capacity : b.capacity ≡ fl.nat rule.burst
    tokens : b.tokens ≡ fl.nat k
    last_refill : b.last_refill ≡ now
    within : k ≤ rule.burst
    small : rule.burst < 2 ^ 32

  capped : (k n : ℕ) → k ≤ n → n < 2 ^ 32 → min_of (fl.nat k) (fl.nat n) ≡ fl.nat k
  capped k n h small =
      let same = fl.le-nat n k (omega (arith, small)) (omega (arith, h, small)) in
      elim (Bool-cases (leb n k)) [
        | inl e ↦ let equal : n ≡ k = ground (arith, e, h) in rw (same, e) (ap fl.nat equal)
        | inr e ↦ rw (same, e) refl
      ]

  full_tokens :
      (rule : RateLimitRule) (k : ℕ) (b : TokenBucket F)
      → Holds rule k b
      → (refill now b).tokens ≡ fl.nat k
  unfolding refill
  full_tokens rule k b h =
      rw
        (
          h.last_refill,
          no_time now,
          fl.seconds-zero,
          fl.mul-zero b.refill_rate,
          h.tokens,
          fl.add-zero (fl.nat k),
          h.capacity,
        )
        (capped k rule.burst h.within h.small)

  refill-Holds :
      (rule : RateLimitRule) (k : ℕ) (b : TokenBucket F)
      → Holds rule k b
      → Holds rule k (refill now b)
  unfolding refill
  refill-Holds rule k b h = record {
    capacity = h.capacity;
    tokens = full_tokens rule k b h;
    last_refill = refl;
    within = h.within;
    small = h.small;
  }

  try_acquire-Holds :
      (rule : RateLimitRule) (k : ℕ) (b : TokenBucket F)
      → Holds rule k b
      → ((try_acquire now 1 b).0 ≡ leb 1 k) × Holds rule (k - 1) (try_acquire now 1 b).1
  unfolding try_acquire
  try_acquire-Holds rule k b h =
      let r = refill-Holds rule k b h in
      let test : fl.le (fl.nat 1) (refill now b).tokens ≡ leb 1 k =
        rw r.tokens (fl.le-nat 1 k (omega arith) (omega (arith, h.within, h.small))) in
      elim (Bool-cases (leb 1 k)) [
        | inl some' ↦
            let one : suc (k - 1) ≡ k = ground arith in
            let paid : fl.sub (refill now b).tokens (fl.nat 1) ≡ fl.nat (k - 1) = rw r.tokens (
              ap (λ j. fl.sub (fl.nat j) (fl.nat 1)) (sym one)
              ∙ fl.sub-nat (k - 1) (omega (arith, one, h.within, h.small))) in
            rw (test, some')
              (
                refl,
                record {
                  capacity = r.capacity;
                  tokens = paid;
                  last_refill = r.last_refill;
                  within = omega (arith, h.within);
                  small = h.small;
                },
              )
        | inr none' ↦ let zero' : k - 1 ≡ k = ground arith in rw (test, none', zero') (refl, r)
      ]

  remaining-Holds :
      (rule : RateLimitRule) (k : ℕ) (b : TokenBucket F)
      → Holds rule k b
      → Holds rule k (remaining now b).1
  unfolding remaining
  remaining-Holds rule k b h = refill-Holds rule k b h

  use-Holds :
      (rule : RateLimitRule) (k : ℕ) (b : TokenBucket F)
      → Holds rule k b
      → ((use_bucket rule (readings_at now) b).0.allowed ≡ leb 1 k)
        × Holds rule (k - 1) (use_bucket rule (readings_at now) b).1
  unfolding use_bucket
  use-Holds rule k b h =
      let (same, left) = try_acquire-Holds rule k b h in (same, remaining-Holds rule (k - 1) _ left)

  new-Holds :
      (rule : RateLimitRule) → rule.burst < 2 ^ 32 → Holds rule rule.burst (bucket_of rule now)
  unfolding new
  new-Holds rule small = record {
    capacity = refl;
    tokens = refl;
    last_refill = refl;
    within = omega arith;
    small = small;
  }

  counts :
      (config : RateLimitConfig) (subs : List String) (a : Eager F) (all : ℕ) (own : String → ℕ)
      → Holds config.global all a.global
      → ((sub : String) → Holds config.per_identity (own sub) (a.per_identity sub))
      → map allowed_of (eager_answers config a (map (at_once now) subs)) ≡ granted all own subs
  unfolding eager_call update
  counts config [] a all own g h = refl
  counts config (sub ∷ subs) a all own g h =
      let (passes, g') = use-Holds config.global all a.global g in
      let (takes, h') = use-Holds config.per_identity (own sub) (a.per_identity sub) (h sub) in
      elim (Bool-cases (leb 1 all)) [
        | inl some' ↦
            rw (passes, some', takes)
              (ap (λ rest. leb 1 (own sub) ∷ rest)
                (counts config subs
                  (record a {
                    global = (use_bucket config.global (readings_at now) a.global).1;
                    per_identity =
                        update sub
                          (use_bucket config.per_identity (readings_at now) (a.per_identity sub)).1
                          a.per_identity;
                  })
                  (all - 1) (λ j. if str_eq sub j then own sub - 1 else own j) g'
                  (λ j. elim (Bool-cases (str_eq sub j)) [
                    | inl same ↦ rw same h'
                    | inr other ↦ rw other (h j)
                  ])))
        | inr none' ↦
            rw (passes, none', passes, none')
              (ap (λ rest. false ∷ rest)
                (counts config subs
                  (record a { global = (use_bucket config.global (readings_at now) a.global).1 })
                  (all - 1) own g' h))
      ]

-- Of any requests within one instant, by any callers in any order, a new limiter lets through
-- exactly those that counting does: each request takes one of the global burst while there is one,
-- and then one of the burst of its caller, and passes when there was one of both. The bursts are
-- u32, so that the machine's numbers count them exactly.
pub granted-from_config :
    (F : Type 0) ⦃fl : Float F⦄ (config : RateLimitConfig) (now : ℕ) (subs : List String)
    → config.global.burst < 2 ^ 32
    → config.per_identity.burst < 2 ^ 32
    → map allowed_of (answers (from_config {F = F} config now) (map (at_once now) subs))
      ≡ granted config.global.burst (λ sub. config.per_identity.burst) subs
unfolding eager
granted-from_config F config now subs all_small own_small =
    ap (map allowed_of) (answers-from_config F config now (map (at_once now) subs))
    ∙ counts now config subs (eager {F = F} config now) config.global.burst
        (λ sub. config.per_identity.burst) (new-Holds now config.global all_small)
        (λ sub. new-Holds now config.per_identity own_small)
