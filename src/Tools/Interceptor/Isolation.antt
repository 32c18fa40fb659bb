-- ===== src/Tools/Interceptor/Isolation.antt =====
-- What reaches the executor, and that every call is answered.
use intellisphere.Common.{
  ℕ, suc, String, ◌≡◌, refl, subst, ◌∙◌, Bool, true, false, ◌&&◌, Option, none, some, List, [], ◌∷◌,
  map, Result, ok, err, is_ok, arith, Bool-cases, inl, inr,
}
use intellisphere.Proto.{ToolCall, ToolResult}
use intellisphere.Auth.Identity.{Identity}
use intellisphere.Tools.Registry
use intellisphere.Tools.Registry.{ToolRegistration, ToolRegistry, ToolZone, sphere, satellite, wasm}
use intellisphere.Tools.Json.{JsonLib}
use intellisphere.Tools.ScopedClient.{Network}
use intellisphere.Tools.Executor.{ToolExecutor, execute}
use intellisphere.Tools.Interceptor.{
  check_authorization, validate_params, enforce_size, process_one, process, process_from, collect,
  error_result, found, authorized, validated,
}

module _ {Val : Type 0} (json : JsonLib Val) where
  call_id-enforce_size : (r t : ToolResult) → enforce_size json r ≡ some t → t.call_id ≡ r.call_id
  unfolding enforce_size
  call_id-enforce_size r t h = ground arith

  abbrev valid_for : Option Identity → ToolCall → Option ToolRegistration → Bool
  valid_for identity tc none = false
  valid_for identity tc (some reg) =
      is_ok (check_authorization reg identity)
      && is_ok (validate_params json tc.arguments_json reg.input_schema_json)

  -- The call's tool is registered, its caller authorised and its parameters valid.
  abbrev pub admitted : ToolRegistry → Option Identity → ToolCall → Bool
  admitted registry identity tc = valid_for identity tc (Registry.get tc.name registry)

  module _ (net net' : Network) (time time' : String) (panics panics' : ToolCall → Bool)
      (exec exec' : ToolExecutor) where
    validated_apart :
        (tc : ToolCall) (reg : ToolRegistration) (v : Result (Unit {0}) String)
        → is_ok v ≡ false
        → (r : ToolResult) × (validated json net time panics exec tc reg v ≡ some r)
          × (validated json net' time' panics' exec' tc reg v ≡ some r)
          × (r.is_error ≡ true)
    unfolding validated
    validated_apart tc reg (ok u) h = cc
    validated_apart tc reg (err e) h = (_, refl, refl, refl)

    authorized_apart :
        (tc : ToolCall) (reg : ToolRegistration) (a : Result (Unit {0}) String)
        → (is_ok a && is_ok (validate_params json tc.arguments_json reg.input_schema_json)) ≡ false
        → (r : ToolResult) × (authorized json net time panics exec tc reg a ≡ some r)
          × (authorized json net' time' panics' exec' tc reg a ≡ some r)
          × (r.is_error ≡ true)
    unfolding authorized
    authorized_apart tc reg (ok u) h =
        validated_apart tc reg (validate_params json tc.arguments_json reg.input_schema_json) h
    authorized_apart tc reg (err e) h = (_, refl, refl, refl)

    found_apart :
        (identity : Option Identity) (tc : ToolCall) (reg : Option ToolRegistration)
        → valid_for identity tc reg ≡ false
        → (r : ToolResult) × (found json net time panics exec tc identity reg ≡ some r)
          × (found json net' time' panics' exec' tc identity reg ≡ some r)
          × (r.is_error ≡ true)
    unfolding found
    found_apart identity tc none h = (_, refl, refl, refl)
    found_apart identity tc (some reg) h =
        authorized_apart tc reg (check_authorization reg identity) h

    -- A call that is not admitted is answered with an error that does not depend on the executor,
    -- the network, the clock or on whether the tool panics.
    pub process_one_apart :
        (registry : ToolRegistry) (identity : Option Identity) (tc : ToolCall)
        → admitted registry identity tc ≡ false
        → (r : ToolResult) × (process_one json net time panics exec registry identity tc ≡ some r)
          × (process_one json net' time' panics' exec' registry identity tc ≡ some r)
          × (r.is_error ≡ true)
    unfolding process_one
    process_one_apart registry identity tc h =
        found_apart identity tc (Registry.get tc.name registry) h

  module _ (net : Network) (time : String) (panics : ToolCall → Bool) (exec : ToolExecutor) where
    call_id-execute :
        (tc : ToolCall) (reg : ToolRegistration)
        → (execute json net time exec tc reg).call_id ≡ tc.call_id
    unfolding execute
    call_id-execute tc reg = ground arith

    call_id-validated :
        (tc : ToolCall) (reg : ToolRegistration) (v : Result (Unit {0}) String) (r : ToolResult)
        → validated json net time panics exec tc reg v ≡ some r
        → r.call_id ≡ tc.call_id
    unfolding validated
    call_id-validated tc reg (err e) r h = ground arith
    call_id-validated tc reg (ok u) r h = elim (Bool-cases (panics tc)) [
      | inl crash ↦
          let crashed : some (
                error_result json tc.call_id "EXECUTION_ERROR"
                  "Tool handler encountered an internal error")
              ≡ some r =
            rw crash at h in
          ground arith
      | inr done ↦
          let result : enforce_size json (execute json net time exec tc reg) ≡ some r =
            rw done at h in
          call_id-enforce_size (execute json net time exec tc reg) r result ∙ call_id-execute tc reg
    ]

    call_id-authorized :
        (tc : ToolCall) (reg : ToolRegistration) (a : Result (Unit {0}) String) (r : ToolResult)
        → authorized json net time panics exec tc reg a ≡ some r
        → r.call_id ≡ tc.call_id
    unfolding authorized
    call_id-authorized tc reg (err e) r h = ground arith
    call_id-authorized tc reg (ok u) r h = call_id-validated tc reg _ r h

    call_id-found :
        (identity : Option Identity) (tc : ToolCall) (reg : Option ToolRegistration)
        (r : ToolResult)
        → found json net time panics exec tc identity reg ≡ some r
        → r.call_id ≡ tc.call_id
    unfolding found
    call_id-found identity tc none r h = ground arith
    call_id-found identity tc (some reg) r h =
        call_id-authorized tc reg (check_authorization reg identity) r h

    pub call_id-process_one :
        (registry : ToolRegistry) (identity : Option Identity) (tc : ToolCall) (r : ToolResult)
        → process_one json net time panics exec registry identity tc ≡ some r
        → r.call_id ≡ tc.call_id
    unfolding process_one
    call_id-process_one registry identity tc r h =
        call_id-found identity tc (Registry.get tc.name registry) r h

ids_collected :
    (id : String) (ids : List String) (o : Option ToolResult) (rest : Option (List ToolResult))
    (rs : List ToolResult)
    → ((r : ToolResult) → o ≡ some r → r.call_id ≡ id)
    → ((later : List ToolResult) → rest ≡ some later → map (λ r. r.call_id) later ≡ ids)
    → collect o rest ≡ some rs
    → map (λ r. r.call_id) rs ≡ id ∷ ids
unfolding collect
ids_collected id ids none rest rs one many h = cc
ids_collected id ids (some r) none rs one many h = cc
ids_collected id ids (some r) (some later) rs one many h =
    let whole : r ∷ later ≡ rs = cc h in
    subst (λ l. map (λ t. t.call_id) l ≡ id ∷ ids) whole (cc (one r refl, many later refl))

module _ {Val : Type 0} (json : JsonLib Val) (net : ℕ → Network) (time : ℕ → String)
    (panics : ℕ → ToolCall → Bool) (exec : ToolExecutor) where
  call_ids-process_from :
      (i : ℕ) (registry : ToolRegistry) (identity : Option Identity) (tcs : List ToolCall)
      (rs : List ToolResult)
      → process_from json net time panics exec i registry identity tcs ≡ some rs
      → map (λ r. r.call_id) rs ≡ map (λ tc. tc.call_id) tcs
  unfolding process_from
  call_ids-process_from i registry identity [] rs h =
      let whole : [] ≡ rs = cc h in
      subst (λ l. map (λ (t : ToolResult). t.call_id) l ≡ []) whole refl
  call_ids-process_from i registry identity (tc ∷ tcs) rs h =
      ids_collected tc.call_id (map (λ c. c.call_id) tcs)
        (process_one json (net i) (time i) (panics i) exec registry identity tc)
        (process_from json net time panics exec (suc i) registry identity tcs) rs
        (call_id-process_one json (net i) (time i) (panics i) exec registry identity tc)
        (call_ids-process_from (suc i) registry identity tcs) h

  -- Every call is answered once and in order: the results carry the ids of the calls.
  pub call_ids-process :
      (registry : ToolRegistry) (identity : Option Identity) (tcs : List ToolCall)
      (rs : List ToolResult)
      → process json net time panics exec registry identity tcs ≡ some rs
      → map (λ r. r.call_id) rs ≡ map (λ tc. tc.call_id) tcs
  unfolding process
  call_ids-process registry identity tcs rs h = call_ids-process_from 0 registry identity tcs rs h
