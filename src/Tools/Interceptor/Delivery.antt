-- ===== src/Tools/Interceptor/Delivery.antt =====
-- For what the interceptor panics, and what becomes of a handler's response.
use intellisphere.Common.{
  ℕ, suc, ◌<◌, Option-cases, ◌≤◌, String, ◌≡◌, refl, ◌∙◌, inl, inr, Bool, true, false, Option, none,
  some, List, [], ◌∷◌, Result, ok, err, is_ok, arith, Bool-cases, ltb, ltb→lt, ltb-false→le, ◌&&◌,
}
use intellisphere.Common.Text.{str_len, is_char_boundary}
use intellisphere.Proto.{ToolCall, ToolResult}
use intellisphere.Auth.Identity.{Identity}
use intellisphere.Tools.Registry
use intellisphere.Tools.Registry.{ToolRegistration, ToolRegistry, sphere}
use intellisphere.Tools.Json.{JsonLib}
use intellisphere.Tools.ScopedClient.{Network}
use intellisphere.Tools.ScopedClient.Allowlist.{post_limit}
use intellisphere.Tools.Executor.{ToolExecutor, execute}
use intellisphere.Tools.Executor.Handlers.{Responds, execute-Responds}
use intellisphere.Tools.Interceptor.{
  max_result_size, check_authorization, validate_params, enforce_size, execute_with_containment,
  process_one, process, process_from, collect, found, authorized, validated,
}
use intellisphere.Tools.Interceptor.Truncation.{enforce_size_cases}
use intellisphere.Tools.Interceptor.Isolation.{admitted}

-- The size limit cannot cut the text: it is longer, and has no character boundary there.
abbrev pub IsUncut : String → Type 0
IsUncut text = (max_result_size < str_len text) × (is_char_boundary text max_result_size ≡ false)

-- The executor answers some call by such a text.
abbrev pub Uncut : {Val : Type 0} → JsonLib Val → Network → String → ToolExecutor → Type 0
Uncut json net timestamp exec =
    (tc : ToolCall) × (reg : ToolRegistration) × IsUncut
      (execute json net timestamp exec tc reg).result_json

module _ {Val : Type 0} (json : JsonLib Val) where
  enforce_size-IsUncut : (r : ToolResult) → enforce_size json r ≡ none → IsUncut r.result_json
  enforce_size-IsUncut r h = elim (Bool-cases (ltb max_result_size (str_len r.result_json))) [
    | inr short ↦
        let whole = (enforce_size_cases json r).0 (ltb-false→le max_result_size _ short) in
        absurd (cc (h, whole))
    | inl long ↦ elim (Bool-cases (is_char_boundary r.result_json max_result_size)) [
      | inl boundary ↦
          let cut = ((enforce_size_cases json r).1 (ltb→lt max_result_size _ long) boundary).0 in
          absurd (cc (h, cut))
      | inr inside ↦ (ltb→lt max_result_size _ long, inside)
    ]
  ]

  module _ (net : Network) (timestamp : String) (panics : ToolCall → Bool)
      (exec : ToolExecutor) where
    validated-Uncut :
        (tc : ToolCall) (reg : ToolRegistration) (v : Result (Unit {0}) String)
        → validated json net timestamp panics exec tc reg v ≡ none
        → Uncut json net timestamp exec
    unfolding validated execute_with_containment
    validated-Uncut tc reg (err e) h = absurd (cc h)
    validated-Uncut tc reg (ok u) h = elim (Bool-cases (panics tc)) [
      | inl p ↦ absurd (cc (rw p at h))
      | inr p ↦ (tc, reg, enforce_size-IsUncut (execute json net timestamp exec tc reg) (rw p at h))
    ]

    authorized-Uncut :
        (tc : ToolCall) (reg : ToolRegistration) (v : Result (Unit {0}) String)
        → authorized json net timestamp panics exec tc reg v ≡ none
        → Uncut json net timestamp exec
    unfolding authorized
    authorized-Uncut tc reg (err e) h = absurd (cc h)
    authorized-Uncut tc reg (ok u) h = validated-Uncut tc reg _ h

    pub found-Uncut :
        (tc : ToolCall) (identity : Option Identity) (reg : Option ToolRegistration)
        → found json net timestamp panics exec tc identity reg ≡ none
        → Uncut json net timestamp exec
    unfolding found
    found-Uncut tc identity none h = absurd (cc h)
    found-Uncut tc identity (some reg) h = authorized-Uncut tc reg _ h

  module _ (net : Network) (timestamp : String) (panics : ToolCall → Bool)
      (exec : ToolExecutor) where
    delivered :
        (tc : ToolCall) (reg : ToolRegistration) (response : String)
        → panics tc ≡ false
        → exec.scoped_client.max_response_body_bytes ≤ max_result_size
        → Responds net exec tc reg response
        → execute_with_containment json net timestamp panics exec tc reg
          ≡ some (record { call_id = tc.call_id; result_json = response; is_error = false })
    unfolding execute_with_containment
    delivered tc reg response calm small r =
        let within =
          post_limit net exec.scoped_client reg.timeout_ms r.url tc.arguments_json response
            r.answered in
        rw (calm, execute-Responds json net timestamp exec tc reg response r)
          ((enforce_size_cases json
              (record { call_id = tc.call_id; result_json = response; is_error = false })).0
            (omega (arith, within, small)))

    through_checks :
        (tc : ToolCall) (reg : ToolRegistration) (a : Result (Unit {0}) String)
        → (is_ok a && is_ok (validate_params json tc.arguments_json reg.input_schema_json)) ≡ true
        → authorized json net timestamp panics exec tc reg a
          ≡ execute_with_containment json net timestamp panics exec tc reg
    unfolding authorized validated
    through_checks tc reg (err e) h = cc
    through_checks tc reg (ok u) h =
        elim (validate_params json tc.arguments_json reg.input_schema_json)
            as (λ v.
              is_ok v ≡ true
              → validated json net timestamp panics exec tc reg v
                ≡ execute_with_containment json net timestamp panics exec tc reg) [
                  | err e ↦ λ k. cc
                  | ok w ↦ λ k. refl
                ]
          h

    -- What the handler of a Sphere tool answers arrives as it was sent: when the call is admitted
    -- (its tool registered, its caller authorised, its parameters valid), the execution does not
    -- panic, and the client's limit for responses is at most a mebibyte, as that of
    -- `ToolExecutor::new` is, the result of the call is the handler's response, not cut, not an
    -- error, and under the id of the call.
    pub process_one-Responds :
        (registry : ToolRegistry) (identity : Option Identity) (tc : ToolCall)
        (reg : ToolRegistration) (response : String)
        → Registry.get tc.name registry ≡ some reg
        → admitted json registry identity tc ≡ true
        → panics tc ≡ false
        → exec.scoped_client.max_response_body_bytes ≤ max_result_size
        → Responds net exec tc reg response
        → process_one json net timestamp panics exec registry identity tc
          ≡ some (record { call_id = tc.call_id; result_json = response; is_error = false })
    unfolding process_one found
    process_one-Responds registry identity tc reg response here fine calm small r = rw here (
        through_checks tc reg (check_authorization reg identity) (rw here at fine)
        ∙ delivered tc reg response calm small r)

module _ {Val : Type 0} (json : JsonLib Val) (net : ℕ → Network) (timestamp : ℕ → String)
    (panics : ℕ → ToolCall → Bool) (exec : ToolExecutor) where
  process_from-Uncut :
      (i : ℕ) (registry : ToolRegistry) (identity : Option Identity) (tcs : List ToolCall)
      → process_from json net timestamp panics exec i registry identity tcs ≡ none
      → (j : ℕ) × Uncut json (net j) (timestamp j) exec
  unfolding process_from process_one collect
  process_from-Uncut i registry identity [] h = absurd (cc h)
  process_from-Uncut i registry identity (tc ∷ tcs) h =
      let reg = Registry.get tc.name registry in
      elim (Option-cases (found json (net i) (timestamp i) (panics i) exec tc identity reg)) [
        | inl e ↦ (i, found-Uncut json (net i) (timestamp i) (panics i) exec tc identity reg e)
        | inr (r, e) ↦
            elim (Option-cases
              (process_from json net timestamp panics exec (suc i) registry identity tcs)) [
                | inl e' ↦ process_from-Uncut (suc i) registry identity tcs e'
                | inr (rs, e') ↦ absurd (cc (rw (e, e') at h))
              ]
      ]

  -- The interceptor panics for a text only that it cannot cut.
  pub process-Uncut :
      (registry : ToolRegistry) (identity : Option Identity) (tcs : List ToolCall)
      → process json net timestamp panics exec registry identity tcs ≡ none
      → (j : ℕ) × Uncut json (net j) (timestamp j) exec
  unfolding process
  process-Uncut registry identity tcs h = process_from-Uncut 0 registry identity tcs h
