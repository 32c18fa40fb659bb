-- ===== src/Tools/Interceptor/Closed.antt =====
-- The interceptor over an executor whose allowlist is empty.
use intellisphere.Common.{
  ℕ, suc, String, ◌≡◌, refl, Bool, Option, none, some, List, [], ◌∷◌, Result, ok, err,
}
use intellisphere.Proto.{ToolCall}
use intellisphere.Auth.Identity.{Identity}
use intellisphere.Tools.Registry
use intellisphere.Tools.Registry.{ToolRegistration, ToolRegistry}
use intellisphere.Tools.Json.{JsonLib}
use intellisphere.Tools.ScopedClient.{Network}
use intellisphere.Tools.Executor.{ToolExecutor}
use intellisphere.Tools.Executor.Handlers.{execute-closed}
use intellisphere.Tools.Interceptor.{
  process_one, process, process_from, found, authorized, validated, execute_with_containment,
}

module _ {Val : Type 0} (json : JsonLib Val) (net net' : Network) (timestamp : String)
    (panics : ToolCall → Bool) (exec : ToolExecutor)
    (closed : exec.scoped_client.allowed_domains ≡ []) (same : net.parse ≡ net'.parse) where
  validated-closed :
      (tc : ToolCall) (reg : ToolRegistration) (v : Result (Unit {0}) String)
      → validated json net timestamp panics exec tc reg v
        ≡ validated json net' timestamp panics exec tc reg v
  unfolding validated execute_with_containment
  validated-closed tc reg (err e) = refl
  validated-closed tc reg (ok u) =
      rw (execute-closed json net net' timestamp exec closed same tc reg) refl

  authorized-closed :
      (tc : ToolCall) (reg : ToolRegistration) (v : Result (Unit {0}) String)
      → authorized json net timestamp panics exec tc reg v
        ≡ authorized json net' timestamp panics exec tc reg v
  unfolding authorized
  authorized-closed tc reg (err e) = refl
  authorized-closed tc reg (ok u) = validated-closed tc reg _

  found-closed :
      (tc : ToolCall) (identity : Option Identity) (reg : Option ToolRegistration)
      → found json net timestamp panics exec tc identity reg
        ≡ found json net' timestamp panics exec tc identity reg
  unfolding found
  found-closed tc identity none = refl
  found-closed tc identity (some reg) = authorized-closed tc reg _

module _ {Val : Type 0} (json : JsonLib Val) (net net' : ℕ → Network) (timestamp : ℕ → String)
    (panics : ℕ → ToolCall → Bool) (exec : ToolExecutor)
    (closed : exec.scoped_client.allowed_domains ≡ [])
    (same : (i : ℕ) → (net i).parse ≡ (net' i).parse) where
  process_from-closed :
      (i : ℕ) (registry : ToolRegistry) (identity : Option Identity) (tcs : List ToolCall)
      → process_from json net timestamp panics exec i registry identity tcs
        ≡ process_from json net' timestamp panics exec i registry identity tcs
  unfolding process_from process_one
  process_from-closed i registry identity [] = refl
  process_from-closed i registry identity (tc ∷ tcs) =
      rw
        (
          found-closed json (net i) (net' i) (timestamp i) (panics i) exec closed (same i) tc
              identity (Registry.get tc.name registry),
          process_from-closed (suc i) registry identity tcs,
        )
        refl

  -- With an empty allowlist the interceptor does the same on every network.
  pub process-closed :
      (registry : ToolRegistry) (identity : Option Identity) (tcs : List ToolCall)
      → process json net timestamp panics exec registry identity tcs
        ≡ process json net' timestamp panics exec registry identity tcs
  unfolding process
  process-closed registry identity tcs = process_from-closed 0 registry identity tcs
