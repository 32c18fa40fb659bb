-- ===== src/Pipeline/Inbound/Sanitization.antt =====
-- sphere/src/pipeline/inbound/input_sanitization.rs
pub mod Clean
use intellisphere.Common.{
  ℕ, String, ◌≡◌, Bool, true, false, ◌&&◌, ◌||◌, not, Result, ok, err, ◌>>=◌, ltb, leb, ◌==◌,
  if◌then◌else◌,
}
use intellisphere.Common.Text.{Char, code}
use intellisphere.Config.{InputSanitizationConfig}
use intellisphere.Errors.{SphereError, filter_rejected}
use intellisphere.Proto.{Message}
use intellisphere.Pipeline.Context.{PipelineContext, Filtered, Filter}

abbrev pub filter_name : String
filter_name = "InputSanitization"

-- `char::is_control`: the category Cc.
abbrev pub is_control : Char → Bool
is_control c = ltb (code c) 32 || (leb 127 (code c) && leb (code c) 159)

-- What the closure of `filter` keeps.
abbrev pub allowed : Char → Bool
allowed c = not (is_control c) || code c == 10 || code c == 13 || code c == 9

-- `chars().filter(p).collect()`
unfoldable pub filter_chars : (Char → Bool) → String → String
filter_chars p String.[] = String.[]
filter_chars p (String.◌∷◌ c s) =
    let rest = filter_chars p s in if p c then String.◌∷◌ c rest else rest

-- `input.contains('\0')`
unfoldable pub has_null : String → Bool
has_null String.[] = false
has_null (String.◌∷◌ c s) = code c == 0 || has_null s

-- The branch on `normalize_unicode` is empty in the source.
unfoldable pub sanitize : InputSanitizationConfig → String → Result String SphereError
sanitize config input =
    if config.reject_null_bytes && has_null input
    then err (filter_rejected filter_name "Input contains null bytes")
    else ok (if config.strip_control_chars then filter_chars allowed input else input)

finish : Message → PipelineContext → Result String SphereError → Filtered
finish message context (ok content) = (ok tt, record message { content = content }, context)
finish message context (err e) = (err e, message, context)

unfoldable pub apply : InputSanitizationConfig → Message → PipelineContext → Filtered
unfolding finish
apply config message context =
    if not config.enabled
    then (ok tt, message, context)
    else finish message context (sanitize config message.content)

abbrev pub filter : InputSanitizationConfig → Filter
filter config = record { name = filter_name; apply = apply config }
