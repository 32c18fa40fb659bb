-- ===== src/Pipeline/Context.antt =====
-- sphere/src/pipeline/context.rs, and the filter traits of inbound/traits.rs and
-- outbound/traits.rs. A filter returns its result beside the message and the context as it leaves
-- them: what was written before an error stays written.
use mathlib.Core.List.{append_assoc}
use intellisphere.Common.{
  str_eq_refl, is_empty, ap, ℕ, String, ◌≡◌, refl, ◌∙◌, false, Option, none, some, List, [], ◌∷◌,
  ◌++◌, Result, unwrap_or, str_eq, if◌then◌else◌,
}
use intellisphere.Common.Dict.{Dict, lookup, insert, lookup-insert}
use intellisphere.Errors.{SphereError}
use intellisphere.Proto.{Message}
use intellisphere.Auth.Identity.{Identity}

pub record PipelineContext : Type 0 where
  pub request_id : String
  pub session_id : String
  pub identity : Option Identity
  pub annotations : Dict (List String)
  pub input_token_count : Option ℕ
  pub session_token_count : Option ℕ
  pub turn_count : Option ℕ

-- `PipelineContext::new`
abbrev pub new : String → String → PipelineContext
new request_id session_id = record {
  request_id = request_id;
  session_id = session_id;
  identity = none;
  annotations = [];
  input_token_count = none;
  session_token_count = none;
  turn_count = none;
}

unfoldable pub get_annotations : PipelineContext → String → Option (List String)
get_annotations ctx key = lookup key ctx.annotations

unfoldable pub annotate : PipelineContext → String → String → PipelineContext
annotate ctx key value = record ctx {
  annotations =
      insert key (unwrap_or (lookup key ctx.annotations) [] ++ value ∷ []) ctx.annotations;
}

-- A loop that annotates one key with each of the values.
unfoldable pub annotate_all : PipelineContext → String → List String → PipelineContext
annotate_all ctx key [] = ctx
annotate_all ctx key (v ∷ vs) = annotate_all (annotate ctx key v) key vs

abbrev pub Filtered : Type 0
Filtered = Result (Unit {0}) SphereError × Message × PipelineContext

pub record Filter : Type 0 where
  pub name : String
  pub apply : Message → PipelineContext → Filtered

-- An annotation is appended to those of its key, and no other key changes.
pub get_annotations-annotate :
    (ctx : PipelineContext) (key j value : String)
    → get_annotations (annotate ctx key value) j ≡ (
        if str_eq key j
        then some (unwrap_or (get_annotations ctx key) [] ++ value ∷ [])
        else get_annotations ctx j)
unfolding get_annotations annotate
get_annotations-annotate ctx key j value = lookup-insert key j _ ctx.annotations

-- The annotations of one key say nothing of another.
pub get_annotations-annotate_all :
    (ctx : PipelineContext) (key j : String) (values : List String)
    → str_eq key j ≡ false
    → get_annotations (annotate_all ctx key values) j ≡ get_annotations ctx j
unfolding annotate_all
get_annotations-annotate_all ctx key j [] ne = refl
get_annotations-annotate_all ctx key j (v ∷ vs) ne =
    get_annotations-annotate_all (annotate ctx key v) key j vs ne
    ∙ (get_annotations-annotate ctx key j v ∙ rw ne)

get_annotations-annotated :
    (ctx : PipelineContext) (key value : String)
    → get_annotations (annotate ctx key value) key
      ≡ some (unwrap_or (get_annotations ctx key) [] ++ value ∷ [])
get_annotations-annotated ctx key value =
    get_annotations-annotate ctx key key value ∙ rw (str_eq_refl key) refl

-- Annotating a key with values appends them all to those it has.
pub get_annotations-own :
    (ctx : PipelineContext) (key : String) (values : List String)
    → get_annotations (annotate_all ctx key values) key ≡ (
        if is_empty values
        then get_annotations ctx key
        else some (unwrap_or (get_annotations ctx key) [] ++ values))
unfolding annotate_all
get_annotations-own ctx key [] = refl
get_annotations-own ctx key (v ∷ []) = get_annotations-annotated ctx key v
get_annotations-own ctx key (v ∷ w ∷ vs) =
    get_annotations-own (annotate ctx key v) key (w ∷ vs)
    ∙ rw (get_annotations-annotated ctx key v)
        (ap some (append_assoc (unwrap_or (get_annotations ctx key) []) (v ∷ []) (w ∷ vs)))
