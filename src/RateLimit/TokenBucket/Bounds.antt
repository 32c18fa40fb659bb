-- ===== src/RateLimit/TokenBucket/Bounds.antt =====
-- When a bucket grants a request.
use intellisphere.Common.{ℕ, ◌+◌, ◌-◌, ◌≡◌, refl, true, arith, Bool-cases, inl, inr}
use intellisphere.Common.Float.{Float, min_of}
use intellisphere.RateLimit.TokenBucket.{TokenBucket, refill, try_acquire}

elapsed_lem : (last elapsed : ℕ) → last + elapsed - last ≡ elapsed
elapsed_lem last elapsed = omega arith

module _ {F : Type 0} ⦃fl : Float F⦄ where
  le-min_of : (n a b : F) → fl.le n a ≡ true → fl.le n b ≡ true → fl.le n (min_of a b) ≡ true
  le-min_of n a b h k = elim (Bool-cases (fl.le b a)) [ inl e ↦ rw e k | inr e ↦ rw e h ]

  -- Of a bucket that holds no negative number of tokens: after a wait in which the rate adds the
  -- tokens wanted, as the machine computes the product of the seconds and the rate, a request that
  -- fits the capacity is granted, whatever was left.
  pub try_acquire_after_wait :
      (b : TokenBucket F) (elapsed count : ℕ)
      → fl.le (fl.nat 0) b.tokens ≡ true
      → fl.le (fl.nat count) b.capacity ≡ true
      → fl.le (fl.nat count) (fl.mul (fl.seconds elapsed) b.refill_rate) ≡ true
      → (try_acquire (b.last_refill + elapsed) count b).0 ≡ true
  unfolding refill try_acquire
  try_acquire_after_wait b elapsed count held fits waited =
      let added = fl.mul (fl.seconds elapsed) b.refill_rate in
      let granted =
        le-min_of (fl.nat count) (fl.add b.tokens added) b.capacity
          (fl.le_trans (fl.nat count) added (fl.add b.tokens added) waited
            (fl.le-add' b.tokens added held))
          fits in
      rw (elapsed_lem b.last_refill elapsed, granted) refl
