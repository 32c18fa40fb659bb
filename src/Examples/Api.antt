-- ===== src/Examples/Api.antt =====
-- Witnesses for the modules of Api.
use intellisphere.Common.{
  ℕ, ◌%◌, ◌^◌, String, ◌≡◌, refl, Bool, none, some, List, [], ◌∷◌, Result, ok, err,
}
use intellisphere.Proto.{ToolCall, CompletionRequest, CompletionResponse, tool_use}
use intellisphere.Pipeline.Context
use intellisphere.Pipeline.Context.{Filter}
use intellisphere.Pipeline.Regex.{literal_engine}
use intellisphere.Tools.ScopedClient.{Network}
use intellisphere.Api.Chat.{AppState, ChatRequest, run_messages, chat, chat_stream}
use intellisphere.Api.Chat.Stream.{with_outbound, chat_stream-outbound}
use intellisphere.Auth.Jwt.{Claims, Validation}
use intellisphere.Config.Service
use intellisphere.Config.Service.{SphereConfig}
use intellisphere.Core.{CoreClient}
use intellisphere.Proto.{CompletionChunk}
use intellisphere.Api.Chat.{ChatResponse}
use intellisphere.Api.Chat.Conversation.{Converses, chat-Converses}
use intellisphere.Api.Chat.Answers.{Answers}
use intellisphere.Start.{start, chat_state}
use intellisphere.Start.Offline.{chat-start}
use intellisphere.Proto.{end_turn}
use intellisphere.Pipeline.Chain.{run_inbound, run_filters}
use intellisphere.Pipeline.Inbound.Sanitization
use intellisphere.Api.Chat.{request_of, tool_loop, turn, after_inbound}
use intellisphere.Api.Chat.{finish}
use intellisphere.Pipeline.Chain.{run_outbound}
use intellisphere.Api.Chat.Tokens.{input_sum, output_sum, chat_usage}
use intellisphere.Examples.Data.{say, tenths_float}
use intellisphere.Examples.Data.{lower, json, net, quiet, exec, registry, call, chain}

abbrev app : AppState
app = record {
  pipeline = chain;
  tool_registry = registry;
  tool_executor = exec;
  max_tool_iterations = 3;
}

abbrev question : ChatRequest
question = record {
  messages = record { role = "user"; content = "wipe it" } ∷ [];
  model = "m";
  max_tokens = 1024;
  temperature = 0;
  system = none;
}

-- A model that asks for the tool again and again.
abbrev insistent : ℕ → CompletionRequest → Result CompletionResponse String
insistent n request = ok (record {
  content = "";
  tool_calls = call "c1" "wipe" ∷ [];
  stop_reason = tool_use;
  usage = none;
  model = "m";
})

abbrev nets : ℕ → ℕ → Network
nets n i = net

abbrev times : ℕ → ℕ → String
times n i = "now"

abbrev panics : ℕ → ℕ → ToolCall → Bool
panics n i = quiet

abbrev first_chunk : CompletionChunk
first_chunk = record {
  delta = "a";
  tool_call = none;
  stop_reason = 0;
  usage = none;
  chunk_type = 1;
}

abbrev stream_of : CompletionRequest → Result (List (Result CompletionChunk String)) String
stream_of request = ok (ok first_chunk ∷ err "lost" ∷ [])

abbrev event_of : String → ℕ → String
event_of delta chunk_type = delta

chat_stream-outbound_example :
    chat_stream stream_of event_of (with_outbound [] app) question "r1"
    ≡ chat_stream stream_of event_of app question "r1"
chat_stream-outbound_example = chat_stream-outbound stream_of event_of [] app question "r1"

chat-Converses_example :
    Converses json nets times panics insistent app
      (run_messages app.pipeline question.messages (Context.new "r1" ""))
      (chat json nets times panics insistent app question "r1").1
chat-Converses_example = chat-Converses json nets times panics insistent app question "r1"

abbrev finishing : ℕ → CompletionRequest → Result CompletionResponse String
finishing n request = ok (record {
  content = "done";
  tool_calls = [];
  stop_reason = end_turn;
  usage = none;
  model = "m";
})

abbrev first_request : CompletionRequest
first_request = request_of app question "r1" (say "wipe it" ∷ [])

abbrev core : CoreClient CompletionChunk String
core = record {
  inner = record {
    complete = insistent 0;
    complete_stream = stream_of;
    health = λ request. err "refused";
  };
}

abbrev no_decoder : Validation → String → Result Claims String
no_decoder v token = err "InvalidToken"

abbrev config : SphereConfig
config = Service.read (record {
  listen_addr = none;
  core_grpc_url = none;
  pipeline = none;
  tools = none;
  auth = none;
  rate_limit = none;
  policies = none;
})

abbrev dead_net : ℕ → ℕ → Network
dead_net n i = record net { get = λ c u. err "down"; post = λ c m u body. none }

chat-start_example :
    chat json nets times panics insistent
      (chat_state (start {F = ℕ} literal_engine lower no_decoder config core none 0))
      question
      "r1"
    ≡ chat json dead_net times panics insistent
        (chat_state (start {F = ℕ} literal_engine lower no_decoder config core none 0))
        question
        "r1"
chat-start_example =
    chat-start ℕ json nets dead_net times panics insistent (λ i j. refl) literal_engine lower
      no_decoder config core none 0 question "r1"

-- A model that answers, and says what that took.
abbrev counting : ℕ → CompletionRequest → Result CompletionResponse String
counting n request = ok (record {
  content = "done";
  tool_calls = [];
  stop_reason = end_turn;
  usage = some (record { input_tokens = 4294967295; output_tokens = 7 });
  model = "m";
})

abbrev bare_app : AppState
bare_app = record app { pipeline = record { inbound_filters = []; outbound_filters = [] } }

abbrev answer : ChatResponse
answer = record {
  content = "done";
  model = "m";
  stop_reason = "end_turn";
  usage = record { input_tokens = 4294967295; output_tokens = 7 };
}

answered : (chat json nets times panics counting bare_app question "r1").0 ≡ some (ok answer)
unfolding chat run_messages run_inbound run_filters tool_loop turn after_inbound finish run_outbound
answered = refl

chat_usage_example :
    (answer.usage.input_tokens
      ≡ input_sum json nets times panics counting 0
          (chat json nets times panics counting bare_app question "r1").1
        % 2 ^ 32)
    × (answer.usage.output_tokens
        ≡ output_sum json nets times panics counting 0
            (chat json nets times panics counting bare_app question "r1").1
          % 2 ^ 32)
chat_usage_example =
    chat_usage json nets times panics counting bare_app question "r1" answer answered
