-- ===== src/Examples/Verdicts.antt =====
-- Witnesses for the classifiers, the echo, the URL flag and the audit log.
use intellisphere.Common.{not, String, ◌≡◌, refl, [], ◌∷◌, ok, is_ok, if◌then◌else◌}
use intellisphere.Pipeline.Regex.{literal_engine}
use intellisphere.Pipeline.Inbound.Classifier
use intellisphere.Pipeline.Inbound.Classifier.{ContentClassifierFilter}
use intellisphere.Pipeline.Inbound.Classifier.Verdict.{
  matches_of, is_matched, outcome, annotated, apply_classified,
}
use intellisphere.Pipeline.Outbound.ResponseClassifier
use intellisphere.Pipeline.Outbound.ResponseClassifier.{ResponseClassifierFilter}
use intellisphere.Pipeline.Outbound.ResponseClassifier.Verdict.{
  classified, apply_classified_response,
}
use intellisphere.Pipeline.Outbound.Hallucination
use intellisphere.Pipeline.Outbound.InjectionEcho
use intellisphere.Pipeline.Outbound.InjectionEcho.{matched_indicators}
use intellisphere.Pipeline.Outbound.InjectionEcho.Fed.{flagged_with, echoes, apply-apply}
use intellisphere.Examples.Data.{lower, say, fresh, literal_laws}

abbrev classifier : ContentClassifierFilter
classifier = record {
  mode = Classifier.flag;
  patterns = "jailbreak" ∷ "pretend" ∷ [];
  pattern_names = "jailbreak_keyword" ∷ "pretend_to_be" ∷ [];
}

apply_classified_example : Classifier.apply literal_engine classifier (say "a jailbreak") fresh ≡ (
  outcome literal_laws Classifier.flag
      (is_matched literal_laws classifier.patterns "a jailbreak")
      (matches_of literal_laws classifier.patterns classifier.pattern_names "a jailbreak"),
  say "a jailbreak",
  annotated literal_laws Classifier.flag
      (matches_of literal_laws classifier.patterns classifier.pattern_names "a jailbreak")
      fresh,
)
apply_classified_example = apply_classified literal_laws classifier (say "a jailbreak") fresh

abbrev responses : ResponseClassifierFilter
responses = record {
  action = ResponseClassifier.redact;
  patterns = "bomb" ∷ [];
  pattern_names = "weapons" ∷ [];
}

apply_classified_response_example :
    ResponseClassifier.apply literal_engine responses (say "a bomb") fresh ≡ (
      if is_matched literal_laws responses.patterns "a bomb"
      then classified ResponseClassifier.redact
          (matches_of literal_laws responses.patterns responses.pattern_names "a bomb")
          (say "a bomb")
          fresh
      else (ok tt, say "a bomb", fresh))
apply_classified_response_example =
    apply_classified_response literal_laws responses (say "a bomb") fresh

abbrev hits : String
hits = Hallucination.url_regex

apply-apply_example :
    is_ok
      (InjectionEcho.apply lower InjectionEcho.block
        (say "as dan")
        (Classifier.apply literal_engine classifier (say "a jailbreak") fresh).2).0
    ≡ not (
        echoes lower
          (flagged_with literal_laws lower classifier (say "a jailbreak") fresh)
          "as dan")
apply-apply_example =
    apply-apply literal_laws lower classifier (say "a jailbreak") (say "as dan") fresh refl refl
