-- ===== src/Pipeline/Inbound/Boundary/Turns.antt =====
-- How many turns a session gets.
use intellisphere.Common.{
  ℕ, ◌+◌, ◌≤◌, ◌<◌, ◌≡◌, none, some, List, [], ◌∷◌, leb, arith, is_ok, unwrap_or, Bool, true, false,
  Bool-cases, inl, inr, if◌then◌else◌, length,
}
use intellisphere.Proto.{Message}
use intellisphere.Pipeline.Context.{PipelineContext}
use intellisphere.Pipeline.Inbound.Boundary.{ConversationBoundaryFilter, apply}

abbrev pub turns : PipelineContext → ℕ
turns ctx = unwrap_or ctx.turn_count 0

-- The messages of a session, one after another, up to the first that is refused.
abbrev pub run :
    ConversationBoundaryFilter → List Message → PipelineContext → Bool × PipelineContext
run f [] ctx = (true, ctx)
run f (m ∷ ms) ctx =
    let (verdict, m', ctx') = apply f m ctx in
    let rest = run f ms ctx' in if is_ok verdict then rest else (false, ctx')

module _ (f : ConversationBoundaryFilter) (max : ℕ) (limited : f.max_turns ≡ some max)
    (unbounded : f.max_context_tokens ≡ none) (small : max < 4294967295) where
  turns-apply :
      (m : Message) (ctx : PipelineContext)
      → turns ctx ≤ max
      → (is_ok (apply f m ctx).0 ≡ leb (turns ctx + 1) max)
        × (turns (apply f m ctx).2 ≡ turns ctx + 1)
  unfolding apply
  turns-apply m ctx low = (ground arith, ground arith)

  -- With a turn limit below 2 ^ 32 - 1 that is not yet exceeded, and no window limit, a session's
  -- messages all pass exactly when the turns taken and the messages together are within the limit.
  pub run-turns :
      (ms : List Message) (ctx : PipelineContext)
      → turns ctx ≤ max
      → (run f ms ctx).0 ≡ leb (turns ctx + length ms) max
  run-turns [] ctx low = ground arith
  run-turns (m ∷ ms) ctx low = elim (Bool-cases (is_ok (apply f m ctx).0)) [
    | inl fine ↦
        rw fine (ground (arith, fine, turns-apply m ctx low, run-turns ms (apply f m ctx).2))
    | inr refused ↦ rw refused (ground (arith, refused, turns-apply m ctx low))
  ]
