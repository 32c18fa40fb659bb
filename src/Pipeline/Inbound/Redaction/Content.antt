-- ===== src/Pipeline/Inbound/Redaction/Content.antt =====
-- What redaction makes of a text.
use intellisphere.Common.{
  String, ◌≡◌, refl, sym, ◌∙◌, ap, true, false, List, [], ◌∷◌, ok, length, is_empty, ltb, arith,
  Bool-cases, inl, inr,
}
use intellisphere.Proto.{Message}
use intellisphere.Pipeline.Context.{PipelineContext}
use intellisphere.Pipeline.Regex.{RegexEngine, RegexLaws}
use intellisphere.Pipeline.Inbound.Redaction.{
  RedactionStrategy, PiiPattern, PiiRedactionFilter, Progress, substitute, redact_one, redact,
  apply,
}

no_length : (xs : List String) → ltb 0 (length xs) ≡ false → is_empty xs ≡ true
no_length [] h = refl
no_length (x ∷ xs) h = ground arith

module _ (re : RegexEngine) (laws : RegexLaws re) where
  -- Every pattern in turn is replaced everywhere, matched or not.
  abbrev pub substituted : RedactionStrategy → List PiiPattern → String → String
  substituted strategy [] s = s
  substituted strategy (p ∷ ps) s =
      substituted strategy ps (re.replace_all p.regex s (substitute strategy p))

  content-redact_one :
      (strategy : RedactionStrategy) (p : PiiPattern) (g : Progress)
      → (redact_one re strategy p g).content
        ≡ re.replace_all p.regex g.content (substitute strategy p)
  unfolding redact_one
  content-redact_one strategy p g =
      elim (Bool-cases (ltb 0 (length (re.find_iter p.regex g.content)))) [
        | inl found ↦ rw found
        | inr missing ↦ rw missing (
            sym (
              laws.replace_all_id p.regex g.content (substitute strategy p)
                (laws.find_iter-is_match p.regex g.content (no_length _ missing))))
      ]

  content-redact :
      (strategy : RedactionStrategy) (ps : List PiiPattern) (g : Progress)
      → (redact re strategy ps g).content ≡ substituted strategy ps g.content
  unfolding redact
  content-redact strategy [] g = refl
  content-redact strategy (p ∷ ps) g =
      content-redact strategy ps (redact_one re strategy p g)
      ∙ ap (substituted strategy ps) (content-redact_one strategy p g)

  -- Redaction never refuses a message, and its text is the one in which all matches of each
  -- pattern in turn are replaced by what the strategy says.
  pub apply-substituted :
      (f : PiiRedactionFilter) (m : Message) (ctx : PipelineContext)
      → ((apply re f m ctx).0 ≡ ok tt)
        × ((apply re f m ctx).1.content ≡ substituted f.strategy f.patterns m.content)
  unfolding apply
  apply-substituted f m ctx = (
    refl,
    content-redact f.strategy f.patterns
        (record { content = m.content; detected_count = 0; context = ctx }),
  )
