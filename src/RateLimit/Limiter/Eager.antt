-- ===== src/RateLimit/Limiter/Eager.antt =====
-- The limiter as its callers see it: everyone has had a full bucket from the start. The code makes
-- a bucket on its first use; the runs below show that nobody can tell.
use intellisphere.Common.{
  ℕ, ◌-◌, String, ◌≡◌, refl, sym, ap, ◌∙◌, unwrap_or, true, Option, none, some, List, [], ◌∷◌,
  Bool-cases, inl, inr, str_eq,
}
use intellisphere.Common.Dict.{Dict, lookup, insert, lookup-insert, lookup-nil}
use intellisphere.Config.{RateLimitRule, RateLimitConfig}
use intellisphere.Common.Float.{Float, min_of}
use intellisphere.RateLimit.TokenBucket.{TokenBucket, new, refill, try_acquire}
use intellisphere.RateLimit.Limiter.{
  RateLimiter, Readings, bucket_of, from_config, use_bucket, check_identity, check_request,
  check_tool, check_ruled,
}
use intellisphere.RateLimit.Limiter.Calls.{
  Buckets, update, Eager, rule_or_zero, eager, Call, request, tool_call, eager_tool, eager_call,
  call, answers, eager_answers,
}

-- What a wait adds is not negative.
wait_pos :
    (F : Type 0) ⦃fl : Float F⦄ (elapsed rpm : ℕ)
    → fl.le (fl.nat 0) (fl.mul (fl.seconds elapsed) (fl.div (fl.nat rpm) (fl.nat 60))) ≡ true
wait_pos F ⦃fl = fl⦄ elapsed rpm =
    fl.mul_pos (fl.seconds elapsed) (fl.div (fl.nat rpm) (fl.nat 60)) (fl.seconds_pos elapsed)
      (fl.div_pos (fl.nat rpm) 59 (fl.nat_pos rpm))

module _ {F : Type 0} ⦃fl : Float F⦄ where
  -- A bucket that stands for one not made yet is full, whatever its time.
  pub record IsFull (rule : RateLimitRule) (b : TokenBucket F) : Type 0 where
    pub capacity : b.capacity ≡ fl.nat rule.burst
    pub tokens : b.tokens ≡ fl.nat rule.burst
    pub refill_rate : b.refill_rate ≡ fl.div (fl.nat rule.requests_per_minute) (fl.nat 60)

  Stands : RateLimitRule → Option (TokenBucket F) → TokenBucket F → Type 0
  Stands rule none b = IsFull rule b
  Stands rule (some c) b = c ≡ b

  capped : (a more : F) → fl.le (fl.nat 0) more ≡ true → min_of (fl.add a more) a ≡ a
  capped a more h = rw (fl.le-add a more h) refl

  refill-full :
      (rule : RateLimitRule) (now : ℕ) (b : TokenBucket F)
      → IsFull rule b
      → refill now b ≡ record {
        capacity = fl.nat rule.burst;
        refill_rate = fl.div (fl.nat rule.requests_per_minute) (fl.nat 60);
        tokens = fl.nat rule.burst;
        last_refill = now;
      }
  unfolding refill
  refill-full rule now b f =
      let more = wait_pos F (now - b.last_refill) rule.requests_per_minute in
      rw (f.capacity, f.tokens, f.refill_rate, capped (fl.nat rule.burst) _ more) refl

  use_refilled :
      (rule : RateLimitRule) (t : Readings) (b c : TokenBucket F)
      → refill t.tried b ≡ refill t.tried c
      → use_bucket rule t b ≡ use_bucket rule t c
  unfolding use_bucket try_acquire
  use_refilled rule t b c e = rw e refl

  use-Stands :
      (rule : RateLimitRule) (t : Readings) (o : Option (TokenBucket F)) (b : TokenBucket F)
      → Stands rule o b
      → use_bucket rule t (unwrap_or o (bucket_of rule t.made)) ≡ use_bucket rule t b
  unfolding Stands new
  use-Stands rule t none b f = use_refilled rule t _ b (
      refill-full rule t.tried (bucket_of rule t.made)
        (record { capacity = refl; tokens = refl; refill_rate = refl })
      ∙ sym (refill-full rule t.tried b f))
  use-Stands rule t (some c) b e = rw e refl

  insert-Stands :
      (rule : RateLimitRule) (key k : String) (b : TokenBucket F) (m : Dict (TokenBucket F))
      (f : Buckets F)
      → Stands rule (lookup k m) (f k)
      → Stands rule (lookup k (insert key b m)) (update key b f k)
  unfolding update Stands
  insert-Stands rule key k b m f h = elim (Bool-cases (str_eq key k)) [
    | inl same ↦ rw (lookup-insert key k b m, same) refl
    | inr other ↦ rw (lookup-insert key k b m, other) h
  ]

  -- What the code's limiter and the eager one have to do with each other.
  record Refines (config : RateLimitConfig) (l : RateLimiter F) (a : Eager F) : Type 0 where
    global_rule : l.global_rule ≡ config.global
    per_identity_rule : l.per_identity_rule ≡ config.per_identity
    per_tool_rules : l.per_tool_rules ≡ config.per_tool
    global : l.global ≡ a.global
    per_identity :
        (k : String) → Stands config.per_identity (lookup k l.per_identity) (a.per_identity k)
    per_tool :
        (k : String) (rule : RateLimitRule)
        → lookup k config.per_tool ≡ some rule
        → Stands rule (lookup k l.per_tool) (a.per_tool k)

  eager-Refines :
      (config : RateLimitConfig) (now : ℕ)
      → Refines config (from_config config now) (eager config now)
  unfolding from_config eager Stands new rule_or_zero
  eager-Refines config now = record {
    global_rule = refl;
    per_identity_rule = refl;
    per_tool_rules = refl;
    global = refl;
    per_identity = λ k.
        rw (lookup-nil {V = TokenBucket F} k)
          (record { capacity = refl; tokens = refl; refill_rate = refl });
    per_tool = λ k rule e.
        rw (lookup-nil {V = TokenBucket F} k, e)
          (record { capacity = refl; tokens = refl; refill_rate = refl });
  }

  -- What is to be shown of one call.
  Simulates : RateLimitConfig → Call → RateLimiter F → Eager F → Type 0
  Simulates config c l a =
      ((call c l).0 ≡ (eager_call config c a).0)
      × Refines config (call c l).1 (eager_call config c a).1

  request-Simulates :
      (config : RateLimitConfig) (sub : String) (t u : Readings) (l : RateLimiter F) (a : Eager F)
      → Refines config l a
      → Simulates config (request sub t u) l a
  unfolding Simulates call eager_call check_request check_identity
  request-Simulates config sub t u l a r =
      let own =
        use-Stands config.per_identity u (lookup sub l.per_identity) (a.per_identity sub)
          (r.per_identity sub) in
      elim (Bool-cases (use_bucket config.global t a.global).0.allowed) [
        | inl passed ↦
            rw (r.global_rule, r.per_identity_rule, r.global, own, passed)
              (
                refl,
                record {
                  global_rule = refl;
                  per_identity_rule = refl;
                  per_tool_rules = r.per_tool_rules;
                  global = refl;
                  per_identity = λ k.
                      insert-Stands config.per_identity sub k _ l.per_identity a.per_identity
                        (r.per_identity k);
                  per_tool = r.per_tool;
                },
              )
        | inr refused ↦
            rw (r.global_rule, r.per_identity_rule, r.global, own, refused)
              (
                refl,
                record {
                  global_rule = refl;
                  per_identity_rule = refl;
                  per_tool_rules = r.per_tool_rules;
                  global = refl;
                  per_identity = r.per_identity;
                  per_tool = r.per_tool;
                },
              )
      ]

  check_ruled-Simulates :
      (config : RateLimitConfig) (tool : String) (t : Readings) (l : RateLimiter F) (a : Eager F)
      (o : Option RateLimitRule)
      → lookup tool config.per_tool ≡ o
      → Refines config l a
      → ((check_ruled tool o t l).0 ≡ (eager_tool o tool t a).0)
        × Refines config (check_ruled tool o t l).1 (eager_tool o tool t a).1
  unfolding check_ruled eager_tool
  check_ruled-Simulates config tool t l a none e r = (refl, r)
  check_ruled-Simulates config tool t l a (some rule) e r =
      let own =
        use-Stands rule t (lookup tool l.per_tool) (a.per_tool tool) (r.per_tool tool rule e) in
      rw own (
        refl,
        record {
          global_rule = r.global_rule;
          per_identity_rule = r.per_identity_rule;
          per_tool_rules = r.per_tool_rules;
          global = r.global;
          per_identity = r.per_identity;
          per_tool = λ k rule' e'.
              insert-Stands rule' tool k _ l.per_tool a.per_tool (r.per_tool k rule' e');
        },
      )

  call-Simulates :
      (config : RateLimitConfig) (c : Call) (l : RateLimiter F) (a : Eager F)
      → Refines config l a
      → Simulates config c l a
  unfolding Simulates call eager_call check_tool
  call-Simulates config (request sub t u) l a r = request-Simulates config sub t u l a r
  call-Simulates config (tool_call tool t) l a r =
      rw (ap (lookup tool) r.per_tool_rules)
        (check_ruled-Simulates config tool t l a (lookup tool config.per_tool) refl r)

  answers-Refines :
      (config : RateLimitConfig) (cs : List Call) (l : RateLimiter F) (a : Eager F)
      → Refines config l a
      → answers l cs ≡ eager_answers config a cs
  unfolding Simulates
  answers-Refines config [] l a r = refl
  answers-Refines config (c ∷ cs) l a r =
      let (same, later) = call-Simulates config c l a r in
      rw (same, answers-Refines config cs _ _ later) refl

-- Making a bucket on its first use cannot be told from having made everyone's at the start: over
-- any calls, for requests and for tools, the limiter answers as the eager limiter does, in which
-- every caller and every tool has its own bucket, full when the limiter was made.
pub answers-from_config :
    (F : Type 0) ⦃fl : Float F⦄ (config : RateLimitConfig) (now : ℕ) (cs : List Call)
    → answers (from_config {F = F} config now) cs
      ≡ eager_answers config (eager {F = F} config now) cs
answers-from_config F config now cs =
    answers-Refines config cs (from_config config now) (eager config now) (eager-Refines config now)
