-- ===== src/Pipeline/Outbound/Hallucination/Flags.antt =====
-- Which URLs of a response are flagged.
use intellisphere.Common.{
  any, ◌||◌, not, String, Bool, ◌≡◌, refl, ◌∙◌, false, true, some, List, [], ◌∷◌, ◌++◌, ok, retain,
  is_empty, unwrap_or, str_eq, Bool-cases, inl, inr, if◌then◌else◌,
}
use intellisphere.Common.Text.{starts_with}
use intellisphere.Proto.{Message}
use intellisphere.Pipeline.Context.{
  PipelineContext, get_annotations, annotate, annotate_all, get_annotations-annotate,
  get_annotations-annotate_all, get_annotations-own,
}
use intellisphere.Pipeline.Regex.{RegexEngine}
use intellisphere.Pipeline.Outbound.Hallucination.{url_regex, hallucinated_urls, apply}

-- The URLs of a response that do not begin like a known one, nor a known one like them.
abbrev pub unknown_urls : RegexEngine → Message → PipelineContext → List String
unknown_urls re m context =
    retain
      (λ url. not (
        any (λ known. starts_with url known || starts_with known url)
          (unwrap_or (get_annotations context "known_urls") [])))
      (re.find_iter url_regex m.content)

retain-nothing :
    {A : Type 0} (p : A → Bool) (xs : List A) → is_empty xs ≡ true → is_empty (retain p xs) ≡ true
retain-nothing p [] h = refl
retain-nothing p (x ∷ xs) h = cc

-- What the filter does, by the unknown URLs.
abbrev flagged : List String → PipelineContext → PipelineContext
flagged urls context =
    if is_empty urls
    then context
    else annotate (annotate_all context "hallucination_flagged_url" urls) "hallucination_confidence"
        "low"

get_annotations-flagged :
    (urls : List String) (context : PipelineContext)
    → get_annotations (flagged urls context) "hallucination_flagged_url" ≡ (
        if is_empty urls
        then get_annotations context "hallucination_flagged_url"
        else some (unwrap_or (get_annotations context "hallucination_flagged_url") [] ++ urls))
get_annotations-flagged [] context = refl
get_annotations-flagged (u ∷ us) context =
    get_annotations-annotate (annotate_all context "hallucination_flagged_url" (u ∷ us))
      "hallucination_confidence" "hallucination_flagged_url" "low"
    ∙ get_annotations-own context "hallucination_flagged_url" (u ∷ us)

get_annotations-unflagged :
    (urls : List String) (context : PipelineContext) (j : String)
    → str_eq "hallucination_flagged_url" j ≡ false
    → str_eq "hallucination_confidence" j ≡ false
    → get_annotations (flagged urls context) j ≡ get_annotations context j
get_annotations-unflagged [] context j no_url no_confidence = refl
get_annotations-unflagged (u ∷ us) context j no_url no_confidence =
    get_annotations-annotate (annotate_all context "hallucination_flagged_url" (u ∷ us))
      "hallucination_confidence" j "low"
    ∙ (rw no_confidence
        (get_annotations-annotate_all context "hallucination_flagged_url" j (u ∷ us) no_url))

module _ (re : RegexEngine) where
  apply-flagged :
      (m : Message) (context : PipelineContext)
      → apply re m context ≡ (ok tt, m, flagged (hallucinated_urls re m context) context)
  unfolding apply
  apply-flagged m context = elim (Bool-cases (is_empty (re.find_iter url_regex m.content))) [
    | inl none_there ↦
        rw (none_there, retain-nothing _ (re.find_iter url_regex m.content) none_there) refl
    | inr some_there ↦ elim (Bool-cases (is_empty (hallucinated_urls re m context))) [
      | inl known ↦ rw (some_there, known) refl
      | inr unknown ↦ rw (some_there, unknown) refl
    ]
  ]

  -- The hallucination flag refuses no response and changes none. It appends to the flagged URLs of
  -- the context exactly the URLs of the response, in order, of which none begins a known one or is begun by one, and
  -- annotates nothing besides but its confidence.
  pub apply_flags :
      (m : Message) (context : PipelineContext) (j : String)
      → str_eq "hallucination_flagged_url" j ≡ false
      → str_eq "hallucination_confidence" j ≡ false
      → ((apply re m context).0 ≡ ok tt)
        × ((apply re m context).1 ≡ m)
        × (get_annotations (apply re m context).2 "hallucination_flagged_url" ≡ (
            if is_empty (unknown_urls re m context)
            then get_annotations context "hallucination_flagged_url"
            else some (
                unwrap_or (get_annotations context "hallucination_flagged_url") []
                ++ unknown_urls re m context)))
        × (get_annotations (apply re m context).2 j ≡ get_annotations context j)
  apply_flags m context j no_url no_confidence = rw (apply-flagged m context) (
    refl,
    refl,
    get_annotations-flagged (unknown_urls re m context) context,
    get_annotations-unflagged (unknown_urls re m context) context j no_url no_confidence,
  )
