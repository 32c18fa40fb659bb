-- ===== src/Pipeline/Outbound/Hallucination.antt =====
-- sphere/src/pipeline/outbound/hallucination_flag.rs
pub mod Flags
use intellisphere.Common.{
  String, Bool, ◌||◌, not, List, [], ok, retain, any, is_empty, unwrap_or, if◌then◌else◌,
}
use intellisphere.Common.Text.{starts_with}
use intellisphere.Proto.{Message}
use intellisphere.Pipeline.Context.{
  PipelineContext, Filtered, Filter, get_annotations, annotate, annotate_all,
}
use intellisphere.Pipeline.Regex.{RegexEngine}

abbrev pub filter_name : String
filter_name = "HallucinationFlag"

abbrev pub url_regex : String
url_regex = "https?://[a-zA-Z0-9\\-._~:/?#\\[\\]@!$&'()*+,;=%]+"

-- A URL counts as known where it and a known URL begin alike.
abbrev pub is_known : List String → String → Bool
is_known known_urls url = any (λ known. starts_with url known || starts_with known url) known_urls

module _ (re : RegexEngine) where
  abbrev pub hallucinated_urls : Message → PipelineContext → List String
  hallucinated_urls message context =
      retain (λ url. not (is_known (unwrap_or (get_annotations context "known_urls") []) url))
        (re.find_iter url_regex message.content)

  unfoldable pub apply : Message → PipelineContext → Filtered
  apply message context =
      let urls = hallucinated_urls message context in
      if is_empty (re.find_iter url_regex message.content)
      then (ok tt, message, context)
      else if is_empty urls
      then (ok tt, message, context)
      else (
        ok tt,
        message,
        annotate (annotate_all context "hallucination_flagged_url" urls) "hallucination_confidence"
            "low",
      )

  abbrev pub filter : Filter
  filter = record { name = filter_name; apply = apply }
