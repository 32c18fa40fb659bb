-- ===== src/Start.antt =====
-- sphere/src/main.rs: the state of the service as `main` makes it. The regex crate, the lower case
-- and the JWT decoder are the parameters they are elsewhere; the configuration and the environment
-- variable are arguments, and so is the time that the limiter's first bucket reads.
pub mod Closed
pub mod Admission
pub mod Boot
pub mod Offline
use intellisphere.Common.{ℕ, String, Option, none, some, List, [], ◌∷◌, Result, unwrap_or}
use intellisphere.Config.Service.{SphereConfig}
use intellisphere.Auth.Jwt.{Claims, Validation}
use intellisphere.Auth.Gate
use intellisphere.Auth.Gate.{IngressGate}
use intellisphere.Pipeline.Regex.{RegexEngine}
use intellisphere.Pipeline.Chain
use intellisphere.Pipeline.Chain.{PipelineChain}
use intellisphere.Common.Float.{Float}
use intellisphere.RateLimit.Limiter
use intellisphere.RateLimit.Limiter.{RateLimiter}
use intellisphere.Tools.Registry
use intellisphere.Tools.Registry.{ToolRegistration, ToolRegistry, sphere, register}
use intellisphere.Tools.Executor
use intellisphere.Tools.Executor.{ToolExecutor}
use intellisphere.Satellite.Session
use intellisphere.Satellite.Ws.{SatelliteState}
use intellisphere.Core.{CoreClient}
use intellisphere.Api.Chat

-- `AppState`: the Core client is over the types of its chunks and statuses.
pub record AppState (F Chunk Status : Type 0) : Type 0 where
  pub config : SphereConfig
  pub core_client : CoreClient Chunk Status
  pub pipeline : PipelineChain
  pub ingress_gate : IngressGate
  pub rate_limiter : RateLimiter F
  pub tool_registry : ToolRegistry
  pub tool_executor : ToolExecutor
  pub satellite_state : Option (SatelliteState F)

abbrev pub echo_tool : ToolRegistration
echo_tool = record {
  name = "intellisphere_echo";
  description = "Echo a message back. Useful for testing the tool call loop.";
  input_schema_json =
      "{\n                \"type\": \"object\",\n                \"properties\": {\n                    \"message\": {\n                        \"type\": \"string\",\n                        \"description\": \"The message to echo back\"\n                    }\n                },\n                \"required\": [\"message\"]\n            }";
  zone = sphere;
  required_scopes = [];
  required_roles = [];
  handler_url = none;
  timeout_ms = 5000;
}

-- The registration of the echo tool succeeds, since the registry is new.
unfoldable pub built_in_tools : ToolRegistry
built_in_tools = (register echo_tool Registry.new).1

abbrev pub default_secret : String
default_secret = "dev-satellite-secret"

-- `SatelliteState::new`
unfoldable pub satellites : {F : Type 0} → Option String → SatelliteState F
satellites secret = record {
  session_manager = Session.new;
  server_secret = unwrap_or secret default_secret;
}

module _ {F Chunk Status : Type 0} ⦃fl : Float F⦄ (re : RegexEngine)
    (to_lowercase : String → String) (decode : Validation → String → Result Claims String) where
  -- `secret` is the environment variable SPHERE_SATELLITE_SECRET.
  unfoldable pub start :
      SphereConfig → CoreClient Chunk Status → Option String → ℕ → AppState F Chunk Status
  unfolding built_in_tools satellites
  start config core_client secret now = record {
    config = config;
    core_client = core_client;
    pipeline = Chain.from_config re to_lowercase config.pipeline;
    ingress_gate = Gate.from_config decode config.auth;
    rate_limiter = Limiter.from_config config.rate_limit now;
    tool_registry = built_in_tools;
    tool_executor = Executor.new [];
    satellite_state = some (satellites secret);
  }

-- What the completion handlers read of the state.
unfoldable pub chat_state : {F Chunk Status : Type 0} → AppState F Chunk Status → Chat.AppState
chat_state state = record {
  pipeline = state.pipeline;
  tool_registry = state.tool_registry;
  tool_executor = state.tool_executor;
  max_tool_iterations = state.config.tools.max_tool_iterations;
}
