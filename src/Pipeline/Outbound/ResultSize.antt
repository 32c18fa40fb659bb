-- ===== src/Pipeline/Outbound/ResultSize.antt =====
-- sphere/src/pipeline/outbound/result_size.rs
pub mod Bounds
use intellisphere.Common.{
  ℕ, zero, suc, ◌+◌, ◌-◌, String, Bool, true, false, ◌&&◌, not, Result, ok, err, min, ltb, leb,
  if◌then◌else◌,
}
use intellisphere.Common.Text.{◌<>◌, show_nat, str_len, slice, is_char_boundary}
use intellisphere.Proto.{Message}
use intellisphere.Pipeline.Context.{PipelineContext, Filtered, Filter, annotate}

abbrev pub default_max_chars : ℕ
default_max_chars = 100000

abbrev pub truncation_suffix : String
truncation_suffix = " [truncated]"

pub record ResultSizeEnforcementFilter : Type 0 where
  pub max_chars : ℕ

abbrev pub with_default : ResultSizeEnforcementFilter
with_default = record { max_chars = default_max_chars }

abbrev pub filter_name : String
filter_name = "ResultSizeEnforcement"

-- `while boundary > 0 && !content.is_char_boundary(boundary) { boundary -= 1; }`
unfoldable pub boundary_at : String → ℕ → ℕ
boundary_at content zero = 0
boundary_at content (suc b) =
    let down = boundary_at content b in
    if not (is_char_boundary content (suc b)) then down else suc b

-- The kept prefix, with the suffix.
unfoldable pub truncate : ℕ → String → String
truncate max_chars content =
    let truncate_at = max_chars - str_len truncation_suffix in
    let boundary = boundary_at content (min truncate_at (str_len content)) in
    slice content 0 boundary <> truncation_suffix

unfoldable pub apply : ResultSizeEnforcementFilter → Message → PipelineContext → Filtered
apply f message context =
    let size : ℕ = str_len message.content in
    let truncated = truncate f.max_chars message.content in
    if leb size f.max_chars then (ok tt, message, context) else (
      ok tt,
      record message { content = truncated },
      annotate context "result_truncated"
          ("original_len=" <> show_nat size <> ", truncated_to=" <> show_nat (str_len truncated)),
    )

abbrev pub filter : ResultSizeEnforcementFilter → Filter
filter f = record { name = filter_name; apply = apply f }
