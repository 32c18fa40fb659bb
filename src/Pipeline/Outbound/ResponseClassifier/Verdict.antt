-- ===== src/Pipeline/Outbound/ResponseClassifier/Verdict.antt =====
-- What the response classifier makes of the patterns that match.
use intellisphere.Common.{String, ◌≡◌, refl, List, ok, err, Bool-cases, inl, inr, if◌then◌else◌}
use intellisphere.Common.Text.{◌<>◌, join}
use intellisphere.Errors.{outbound_rejected}
use intellisphere.Proto.{Message}
use intellisphere.Pipeline.Context.{PipelineContext, Filtered, annotate, annotate_all}
use intellisphere.Pipeline.Regex.{RegexEngine, RegexLaws}
use intellisphere.Pipeline.Inbound.Classifier.Verdict.{
  matches_of, is_matched, is_empty-set_matches, names_at-set_matches,
}
use intellisphere.Pipeline.Outbound.ResponseClassifier.{
  ResponseClassifierAction, ResponseClassifierFilter, block, redact, flag, decide_action, apply,
}

-- What becomes of a response that some pattern matches, by the names of those patterns.
abbrev pub classified :
    ResponseClassifierAction → List String → Message → PipelineContext → Filtered
classified block names m context =
    (err (outbound_rejected ("Response contains harmful content: " <> join ", " names)), m, context)
classified redact names m context = (
  ok tt,
  record m {
    content = "[Content redacted: harmful patterns detected (" <> join ", " names <> ")]";
  },
  annotate (annotate_all context "response_classified_redacted" names) "response_classifier_action"
      ("redacted: " <> join ", " names),
)
classified flag names m context =
    (ok tt, m, annotate_all context "response_classified_flagged" names)

module _ {re : RegexEngine} (laws : RegexLaws re) where
  classified_decides :
      (action : ResponseClassifierAction) (names : List String) (m : Message)
      (context : PipelineContext)
      → decide_action re action names m context ≡ classified action names m context
  unfolding decide_action
  classified_decides block names m context = refl
  classified_decides redact names m context = refl
  classified_decides flag names m context = refl

  -- The response classifier leaves a response that no pattern matches alone. Of one that some
  -- pattern matches it uses the names of exactly the patterns that match: it refuses it with them,
  -- or replaces its text by a notice of them and annotates the context, or annotates only, as its
  -- action says.
  pub apply_classified_response :
      (f : ResponseClassifierFilter) (m : Message) (context : PipelineContext)
      → apply re f m context ≡ (
          if is_matched laws f.patterns m.content
          then classified f.action (matches_of laws f.patterns f.pattern_names m.content) m context
          else (ok tt, m, context))
  unfolding apply
  apply_classified_response f m context = elim (Bool-cases (is_matched laws f.patterns m.content)) [
    | inl hit ↦
        rw
          (
            is_empty-set_matches laws f.patterns m.content,
            names_at-set_matches laws f.patterns f.pattern_names m.content,
            hit,
          )
          (classified_decides f.action _ m context)
    | inr miss ↦ rw (is_empty-set_matches laws f.patterns m.content, miss) refl
  ]
