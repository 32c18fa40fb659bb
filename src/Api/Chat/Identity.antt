-- ===== src/Api/Chat/Identity.antt =====
-- Whose tools a completion may call.
use intellisphere.Common.{
  ℕ, suc, ◌++◌, Result, String, ◌≡◌, Bool, false, ◌&&◌, some, List, [], ◌∷◌, ok, is_empty,
}
use intellisphere.Proto.{ToolCall, ToolResult, CompletionRequest, CompletionResponse}
use intellisphere.Pipeline.Context
use intellisphere.Tools.Registry
use intellisphere.Tools.Registry.{ToolRegistry, ToolRegistration}
use intellisphere.Tools.Json.{JsonLib}
use intellisphere.Tools.ScopedClient.{Network}
use intellisphere.Tools.Interceptor.{error_result}
use intellisphere.Api.Chat.Conversation.{exchange}

module _ {Val : Type 0} (json : JsonLib Val) (registry : ToolRegistry) where
  -- Every call of a registered tool that requires any scope or role is answered by the denial.
  abbrev pub Denied : List ToolCall → List ToolResult → Type 0
  Denied [] results = Unit {0}
  Denied (tc ∷ tcs) [] = ⊥
  Denied (tc ∷ tcs) (r ∷ results) =
      ((reg : ToolRegistration)
        → Registry.get tc.name registry ≡ some reg
        → is_empty reg.required_scopes && is_empty reg.required_roles ≡ false
        → r
          ≡ error_result json tc.call_id "AUTHORIZATION_DENIED"
              "Authentication required for this tool")
      × Denied tcs results

module _ {Val : Type 0} (json : JsonLib Val) (net : ℕ → ℕ → Network) (timestamp : ℕ → ℕ → String)
    (panics : ℕ → ℕ → ToolCall → Bool)
    (complete : ℕ → CompletionRequest → Result CompletionResponse String) where
  -- From a request to the next: what the Core answered, and the results that it is told.
  abbrev pub Denies : ToolRegistry → ℕ → CompletionRequest → List CompletionRequest → Type 0
  Denies registry i r [] = Unit {0}
  Denies registry i r (r' ∷ rs) =
      ((response : CompletionResponse) × (results : List ToolResult) × (complete i r ≡ ok response)
        × (r'.messages ≡ r.messages ++ exchange response results)
        × Denied json registry response.tool_calls results)
      × Denies registry (suc i) r' rs

  abbrev pub AllDenied : ToolRegistry → List CompletionRequest → Type 0
  AllDenied registry [] = Unit {0}
  AllDenied registry (r ∷ rs) = Denies registry 0 r rs
