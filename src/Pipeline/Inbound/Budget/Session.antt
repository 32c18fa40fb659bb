-- ===== src/Pipeline/Inbound/Budget/Session.antt =====
-- How the token counts of a session add up.
use intellisphere.Common.{
  ℕ, ◌+◌, ◌≤◌, ◌<◌, String, ◌≡◌, Bool, true, false, ◌&&◌, Option, none, some, List, [], ◌∷◌, leb,
  arith, unwrap_or, is_ok, Bool-cases, inl, inr, if◌then◌else◌,
}
use intellisphere.Proto.{Message}
use intellisphere.Pipeline.Context.{PipelineContext}
use intellisphere.Pipeline.Inbound.Budget.{TokenBudgetFilter, estimate_tokens, apply}

-- The tokens that a context has been charged for.
abbrev pub charged : PipelineContext → ℕ
charged ctx = unwrap_or ctx.session_token_count 0

pub estimate_tokens-le : (s : String) → estimate_tokens s ≤ 4294967295
unfolding estimate_tokens
estimate_tokens-le s = omega arith

abbrev pub within : Option ℕ → ℕ → Bool
within none n = true
within (some max) n = leb n max

-- The verdict on one message, where the session's charge is so far below 2 ^ 64 that the sum does
-- not wrap: it passes exactly when its estimate is within the request's limit and the charged total
-- within the session's. The input estimate is recorded either way.
pub apply-is_ok :
    (f : TokenBudgetFilter) (m : Message) (ctx : PipelineContext)
    → charged ctx + 4294967295 < 18446744073709551616
    → (is_ok (apply f m ctx).0 ≡ (
        within f.max_input_tokens (estimate_tokens m.content)
        && within f.max_session_tokens (charged ctx + estimate_tokens m.content)))
      × ((apply f m ctx).2.input_token_count ≡ some (estimate_tokens m.content))
unfolding apply
apply-is_ok f m ctx h =
    (ground (arith, estimate_tokens-le m.content), ground (arith, estimate_tokens-le m.content))

-- The messages of a session, one after another, up to the first that is refused.
abbrev pub run : TokenBudgetFilter → List Message → PipelineContext → Bool × PipelineContext
run f [] ctx = (true, ctx)
run f (m ∷ ms) ctx =
    let (verdict, m', ctx') = apply f m ctx in
    let rest = run f ms ctx' in if is_ok verdict then rest else (false, ctx')

abbrev pub total : List Message → ℕ
total [] = 0
total (m ∷ ms) = estimate_tokens m.content + total ms

module _ (f : TokenBudgetFilter) (max : ℕ) (limited : f.max_session_tokens ≡ some max) where
  charged-apply :
      (m : Message) (ctx : PipelineContext)
      → charged ctx ≤ max
      → max + 4294967295 < 18446744073709551616
      → is_ok (apply f m ctx).0 ≡ true
      → (charged (apply f m ctx).2 ≡ charged ctx + estimate_tokens m.content)
        × (charged (apply f m ctx).2 ≤ max)
  unfolding apply
  charged-apply m ctx low room passed =
      (ground (arith, estimate_tokens-le m.content), ground (arith, estimate_tokens-le m.content))

  -- Of a session with a limit at least 2 ^ 32 below 2 ^ 64 and a charge within it: where every
  -- message passes, the session is charged for exactly the sum of their estimates more, and that
  -- stays within the limit.
  pub charged-run :
      (ms : List Message) (ctx : PipelineContext)
      → charged ctx ≤ max
      → max + 4294967295 < 18446744073709551616
      → (run f ms ctx).0 ≡ true
      → (charged (run f ms ctx).1 ≡ charged ctx + total ms) × (charged (run f ms ctx).1 ≤ max)
  charged-run [] ctx low room passed = (omega arith, low)
  charged-run (m ∷ ms) ctx low room passed = elim (Bool-cases (is_ok (apply f m ctx).0)) [
    | inl fine ↦
        let step = charged-apply m ctx low room fine in
        let rest = charged-run ms (apply f m ctx).2 step.1 room (rw fine at passed) in
        rw fine (omega (arith, step.0, rest.0), rest.1)
    | inr refused ↦ absurd (cc (rw refused at passed))
  ]
