-- ===== src/Pipeline/Outbound/ResultSize/Bounds.antt =====
-- The length of a truncated response, and what is kept of it.
use text.Mathlib.TextPositions.{len-append, boundary-zero, boundary-append}
use mathlib.Core.Bool.{false≢true}
use text.Mathlib.TextBridge.{IsPrefix}
use text.Mathlib.TextEquality.{slice-prefix}
use intellisphere.Common.{
  ℕ, zero, suc, ◌+◌, ◌-◌, ◌≤◌, ◌<◌, String, ◌≡◌, refl, true, false, ok, min, leb, arith, Bool-cases,
  inl, inr, str_eq, sym, ap, subst, ◌∙◌, leb→le,
}
use intellisphere.Common.Text.{◌<>◌, str_len, slice, is_char_boundary}
use intellisphere.Proto.{Message}
use intellisphere.Pipeline.Context.{PipelineContext, get_annotations, get_annotations-annotate}
use intellisphere.Pipeline.Outbound.ResultSize.{
  ResultSizeEnforcementFilter, truncation_suffix, boundary_at, truncate, apply,
}

boundary_below :
    (content : String) (i b : ℕ)
    → i ≤ suc b
    → is_char_boundary content i ≡ true
    → is_char_boundary content (suc b) ≡ false
    → i ≤ b
boundary_below content i b h e down = elim (Bool-cases (leb i b)) [
  | inl low ↦ leb→le i b low
  | inr high ↦
      let here : i ≡ suc b = ground arith in
      absurd (false≢true (sym down ∙ subst (λ j. is_char_boundary content j ≡ true) here e))
]

-- The loop stops at the last character boundary at or below its start.
pub boundary_at_last :
    (content : String) (b : ℕ)
    → (boundary_at content b ≤ b)
      × (is_char_boundary content (boundary_at content b) ≡ true)
      × ((i : ℕ) → i ≤ b → is_char_boundary content i ≡ true → i ≤ boundary_at content b)
unfolding boundary_at
boundary_at_last content zero = (omega arith, boundary-zero content, λ i h e. h)
boundary_at_last content (suc b) = elim (Bool-cases (is_char_boundary content (suc b))) [
  | inl stop ↦ rw stop (omega arith, stop, λ i h e. h)
  | inr down ↦
      let below = boundary_at_last content b in
      rw down (omega arith, below.1, λ i h e. below.2 i (boundary_below content i b h e down) e)
]

boundary-len_slice : (s : String) (i : ℕ) → is_char_boundary s i ≡ true → str_len (slice s 0 i) ≡ i
boundary-len_slice s i e = ground arith

abbrev start : ℕ → String → ℕ
start max_chars content = min (max_chars - 12) (str_len content)

abbrev kept : ℕ → String → String
kept max_chars content = slice content 0 (boundary_at content (start max_chars content))

len-kept :
    (n : ℕ) (content : String) → str_len (kept n content) ≡ boundary_at content (start n content)
len-kept n content = boundary-len_slice content _ (boundary_at_last content (start n content)).1

len-truncate :
    (n : ℕ) (content : String) → str_len (truncate n content) ≡ str_len (kept n content) + 12
unfolding truncate
len-truncate n content = len-append (kept n content) truncation_suffix

-- What is cut off a response: of a limit of twelve bytes or more it becomes a prefix of itself that
-- leaves room for the suffix under the limit, followed by the suffix, and of a lower limit the
-- suffix alone; no character is cut, and no longer prefix would leave room for the suffix.
pub truncate_longest :
    (n : ℕ) (content : String)
    → (k : String) × (truncate n content ≡ k <> truncation_suffix)
      × IsPrefix k content
      × (str_len k ≤ n - 12)
      × ((p : String) → IsPrefix p content → str_len p + 12 ≤ n → str_len p ≤ str_len k)
unfolding truncate
truncate_longest n content = (
  kept n content,
  refl,
  slice-prefix content _,
  omega (arith, len-kept n content, (boundary_at_last content (start n content)).0),
  λ p (u, e) room. rw (len-kept n content) (
      (boundary_at_last content (start n content)).2 (str_len p)
        (omega (arith, sym (ap str_len e) ∙ len-append p u))
        (subst (λ s. is_char_boundary s (str_len p) ≡ true) e (boundary-append p u))),
)

-- The filter never refuses a response. One within the limit is unchanged; of a limit of twelve
-- bytes or more no response comes out longer than the limit.
pub apply_fits :
    (f : ResultSizeEnforcementFilter) (m : Message) (ctx : PipelineContext)
    → ((apply f m ctx).0 ≡ ok tt)
      × (str_len m.content ≤ f.max_chars → apply f m ctx ≡ (ok tt, m, ctx))
      × (12 ≤ f.max_chars → str_len (apply f m ctx).1.content ≤ f.max_chars)
unfolding apply
apply_fits f m ctx = (
  ground arith,
  λ short. ground arith,
  λ room. ground (
    arith,
    len-truncate f.max_chars m.content,
    len-kept f.max_chars m.content,
    (boundary_at_last m.content (start f.max_chars m.content)).0,
  ),
)

-- Under a limit below twelve bytes a response that is over the limit comes out as the suffix
-- alone, which is over the limit too.
pub apply_overshoots :
    (f : ResultSizeEnforcementFilter) (m : Message) (ctx : PipelineContext)
    → f.max_chars < 12
    → f.max_chars < str_len m.content
    → (str_len (apply f m ctx).1.content ≡ 12) × (f.max_chars < str_len (apply f m ctx).1.content)
unfolding apply
apply_overshoots f m ctx low long =
    let size : str_len (truncate f.max_chars m.content) ≡ 12 = omega (
      arith,
      len-truncate f.max_chars m.content,
      len-kept f.max_chars m.content,
      (boundary_at_last m.content (start f.max_chars m.content)).0,
    ) in
    (ground arith, ground arith)

-- Truncation annotates one key.
pub annotations-apply :
    (f : ResultSizeEnforcementFilter) (m : Message) (ctx : PipelineContext) (j : String)
    → str_eq "result_truncated" j ≡ false
    → get_annotations (apply f m ctx).2 j ≡ get_annotations ctx j
unfolding apply
annotations-apply f m ctx j ne = elim (Bool-cases (leb (str_len m.content) f.max_chars)) [
  | inl short ↦ rw short
  | inr long ↦ rw long (get_annotations-annotate ctx "result_truncated" j _ ∙ rw ne)
]
