-- ===== src/Start/Offline.antt =====
-- The tools of the service as `main` starts it, and the network.
use intellisphere.Common.{ℕ, String, ◌≡◌, refl, Bool, Option, Result}
use intellisphere.Common.Float.{Float}
use intellisphere.Proto.{ToolCall, CompletionRequest, CompletionResponse}
use intellisphere.Auth.Jwt.{Claims, Validation}
use intellisphere.Config.Service.{SphereConfig}
use intellisphere.Core.{CoreClient}
use intellisphere.Pipeline.Regex.{RegexEngine}
use intellisphere.Tools.Json.{JsonLib}
use intellisphere.Tools.ScopedClient.{Network}
use intellisphere.Api.Chat.{ChatRequest, chat}
use intellisphere.Api.Chat.Offline.{chat-closed}
use intellisphere.Start.{start, chat_state}

-- Under every configuration the tools of the service as it starts never reach the network: its
-- executor has an empty allowlist, so a completion answers the same, and asks the Core the same, on
-- any two networks that read URLs alike, whatever the Core has the tools do.
pub chat-start :
    {Val Chunk Status : Type 0} (F : Type 0) ⦃fl : Float F⦄ (json : JsonLib Val)
    (net net' : ℕ → ℕ → Network) (timestamp : ℕ → ℕ → String) (panics : ℕ → ℕ → ToolCall → Bool)
    (complete : ℕ → CompletionRequest → Result CompletionResponse String)
    (same : (i j : ℕ) → (net i j).parse ≡ (net' i j).parse) (re : RegexEngine)
    (lower : String → String) (decode : Validation → String → Result Claims String)
    (config : SphereConfig) (core : CoreClient Chunk Status) (secret : Option String) (now : ℕ)
    (req : ChatRequest) (id : String)
    → chat json net timestamp panics complete
        (chat_state (start {F = F} re lower decode config core secret now))
        req
        id
      ≡ chat json net' timestamp panics complete
          (chat_state (start {F = F} re lower decode config core secret now))
          req
          id
unfolding chat_state start
chat-start F json net net' timestamp panics complete same re lower decode config core secret now req
      id =
    chat-closed json net net' timestamp panics complete same
      (chat_state (start {F = F} re lower decode config core secret now)) req id refl
