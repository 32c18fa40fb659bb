-- ===== src/Api/Chat/Answers.antt =====
-- Whether the completion handler answers.
use intellisphere.Common.{ℕ, String, ◌⊎◌, ◌≡◌, Bool, some, Result}
use intellisphere.Errors.{SphereError}
use intellisphere.Proto.{ToolCall, CompletionRequest, CompletionResponse}
use intellisphere.Tools.Json.{JsonLib}
use intellisphere.Tools.ScopedClient.{Network}
use intellisphere.Tools.Interceptor.Delivery.{IsUncut}
use intellisphere.Tools.Registry.{ToolRegistration}
use intellisphere.Tools.Executor.{ToolExecutor, execute}
use intellisphere.Api.Chat.{AppState, ChatResponse, Handled}

-- The executor wrote the text itself: that of an error, or of the echo.
abbrev pub IsWritten : {Val : Type 0} → JsonLib Val → String → String → Type 0
IsWritten json time text =
    ((code : String) × (message : String) × (text ≡ json.error_body code message))
    ⊎ ((message : String) × (text ≡ json.echo_body message time))

-- For some call of some iteration the executor wrote a text that the size limit cannot cut.
abbrev pub Overlong :
    {Val : Type 0} → JsonLib Val → (ℕ → ℕ → Network) → (ℕ → ℕ → String) → ToolExecutor → Type 0
Overlong json net timestamp exec =
    (i : ℕ) × (j : ℕ) × (tc : ToolCall) × (reg : ToolRegistration) × IsUncut
      (execute json (net i j) (timestamp i j) exec tc reg).result_json
    × IsWritten json (timestamp i j)
        (execute json (net i j) (timestamp i j) exec tc reg).result_json

module _ {Val : Type 0} (json : JsonLib Val) (net : ℕ → ℕ → Network) (timestamp : ℕ → ℕ → String)
    (panics : ℕ → ℕ → ToolCall → Bool)
    (complete : ℕ → CompletionRequest → Result CompletionResponse String) where
  abbrev pub Answers : AppState → Handled → Type 0
  Answers state h =
      ((result : Result ChatResponse SphereError) × (h.0 ≡ some result))
      ⊎ Overlong json net timestamp state.tool_executor
