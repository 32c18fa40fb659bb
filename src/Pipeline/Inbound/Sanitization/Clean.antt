-- ===== src/Pipeline/Inbound/Sanitization/Clean.antt =====
-- What the sanitizer lets through, and that a second pass changes nothing.
use intellisphere.Common.{
  String, ◌≡◌, refl, Bool, true, false, ◌&&◌, not, ok, err, Bool-cases, inl, inr, arith,
  if◌then◌else◌, ap, is_ok, Result-cases,
}
use intellisphere.Common.Text.{Char}
use intellisphere.Config.{InputSanitizationConfig}
use intellisphere.Errors.{filter_rejected}
use intellisphere.Proto.{Message}
use intellisphere.Pipeline.Context.{PipelineContext}
use intellisphere.Pipeline.Inbound.Sanitization.{
  allowed, filter_chars, has_null, sanitize, apply, finish,
}

-- Every character of the text passes the test.
abbrev pub AllChars : (Char → Bool) → String → Type 0
AllChars p String.[] = Unit {0}
AllChars p (String.◌∷◌ c s) = (p c ≡ true) × AllChars p s

pub filter_chars-AllChars : (p : Char → Bool) (s : String) → AllChars p (filter_chars p s)
unfolding filter_chars
filter_chars-AllChars p String.[] = tt
filter_chars-AllChars p (String.◌∷◌ c s) = elim (Bool-cases (p c)) [
  | inl yes' ↦ rw (yes') (yes', filter_chars-AllChars p s)
  | inr no' ↦ rw (no') (filter_chars-AllChars p s)
]

filter_chars_id : (p : Char → Bool) (s : String) → AllChars p s → filter_chars p s ≡ s
unfolding filter_chars
filter_chars_id p String.[] h = refl
filter_chars_id p (String.◌∷◌ c s) h = rw (h.0) (ap (String.◌∷◌ c) (filter_chars_id p s h.1))

-- A null is a control character, so none is left.
has_null-AllChars : (s : String) → AllChars allowed s → has_null s ≡ false
unfolding has_null
has_null-AllChars String.[] h = refl
has_null-AllChars (String.◌∷◌ c s) h = ground (arith, has_null-AllChars s h.1)

sanitize-ok :
    (config : InputSanitizationConfig) (s t : String)
    → config.strip_control_chars ≡ true
    → sanitize config s ≡ ok t
    → t ≡ filter_chars allowed s
unfolding sanitize
sanitize-ok config s t strip e = ground arith

sanitize_again :
    (config : InputSanitizationConfig) (t : String) → AllChars allowed t → sanitize config t ≡ ok t
unfolding sanitize
sanitize_again config t h = ground (arith, has_null-AllChars t h, filter_chars_id allowed t h)

-- With stripping on, what the sanitizer returns holds allowed characters only, holds no null, and
-- is returned unchanged by a second pass.
pub sanitize_stable :
    (config : InputSanitizationConfig) (s t : String)
    → config.strip_control_chars ≡ true
    → sanitize config s ≡ ok t
    → AllChars allowed t × (has_null t ≡ false) × (sanitize config t ≡ ok t)
sanitize_stable config s t strip e =
    let clean : AllChars allowed t =
      rw (sanitize-ok config s t strip e) (filter_chars-AllChars allowed s) in
    (clean, has_null-AllChars t clean, sanitize_again config t clean)

-- The filter refuses a message exactly when it is enabled, refuses nulls and the text has one.
-- Refused or not, the context is unchanged, and so are a refused message and all of a message
-- but its content.
pub apply_rejects :
    (config : InputSanitizationConfig) (m : Message) (ctx : PipelineContext)
    → (is_ok (apply config m ctx).0
        ≡ not (config.enabled && config.reject_null_bytes && has_null m.content))
      × ((apply config m ctx).2 ≡ ctx)
      × (is_ok (apply config m ctx).0 ≡ false → (apply config m ctx).1 ≡ m)
      × ((apply config m ctx).1.role ≡ m.role)
      × ((apply config m ctx).1.tool_calls ≡ m.tool_calls)
      × ((apply config m ctx).1.tool_results ≡ m.tool_results)
unfolding apply sanitize
apply_rejects config m ctx =
    (ground arith, ground arith, ground arith, ground arith, ground arith, ground arith)

pub result-apply :
    (config : InputSanitizationConfig) (m : Message) (ctx : PipelineContext)
    → (apply config m ctx).0 ≡ (
        if config.enabled && (config.reject_null_bytes && has_null m.content)
        then err (filter_rejected "InputSanitization" "Input contains null bytes")
        else ok tt)
unfolding apply sanitize
result-apply config m ctx = ground arith

-- With the filter and stripping on, a message that passes is left as it was but for the characters
-- that are not allowed.
pub apply-content :
    (config : InputSanitizationConfig) (m : Message) (ctx : PipelineContext)
    → config.enabled ≡ true
    → config.strip_control_chars ≡ true
    → (apply config m ctx).0 ≡ ok tt
    → (apply config m ctx).1 ≡ record m { content = filter_chars allowed m.content }
unfolding apply finish sanitize
apply-content config m ctx on strip passed = elim (Result-cases (sanitize config m.content)) [
  | inl (t, e) ↦
      rw (on, e) (ap (λ s. record m { content = s }) (sanitize-ok config m.content t strip e))
  | inr (x, e) ↦ absurd (cc (rw (on, e) at passed))
]
