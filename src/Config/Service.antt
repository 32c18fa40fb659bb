-- ===== src/Config/Service.antt =====
-- sphere/src/config/mod.rs: the whole configuration of the service.
use intellisphere.Common.{String, ◌≡◌, refl, Option, none, some, List, [], unwrap_or}
use intellisphere.Config.{
  PipelineConfig, ToolsConfig, AuthConfig, RateLimitConfig, ToolsDoc, read_tools,
}
use intellisphere.Config.Sections.{
  AuthDoc, RateLimitDoc, PipelineDoc, read_auth, read_rate_limit, read_pipeline,
}
use intellisphere.Policy.Engine.{PolicyConfig}

pub record SphereConfig : Type 0 where
  pub listen_addr : String
  pub core_grpc_url : String
  pub pipeline : PipelineConfig
  pub tools : ToolsConfig
  pub auth : AuthConfig
  pub rate_limit : RateLimitConfig
  pub policies : List PolicyConfig

abbrev pub default_listen_addr : String
default_listen_addr = "0.0.0.0:8080"

abbrev pub default_core_grpc_url : String
default_core_grpc_url = "http://core:50051"

pub record SphereDoc : Type 0 where
  pub listen_addr : Option String
  pub core_grpc_url : Option String
  pub pipeline : Option PipelineDoc
  pub tools : Option ToolsDoc
  pub auth : Option AuthDoc
  pub rate_limit : Option RateLimitDoc
  pub policies : Option (List PolicyConfig)

unfoldable pub read : SphereDoc → SphereConfig
read d = record {
  listen_addr = unwrap_or d.listen_addr default_listen_addr;
  core_grpc_url = unwrap_or d.core_grpc_url default_core_grpc_url;
  pipeline = read_pipeline d.pipeline;
  tools = read_tools d.tools;
  auth = read_auth d.auth;
  rate_limit = read_rate_limit d.rate_limit;
  policies = unwrap_or d.policies [];
}

-- Sections that are there and say nothing, at every depth.
abbrev pub silent_pipeline : PipelineDoc
silent_pipeline = record {
  inbound = some (record {
    input_sanitization = some (record {
      enabled = none;
      strip_control_chars = none;
      normalize_unicode = none;
      reject_null_bytes = none;
    });
  });
  outbound = some (record {
    pii_leak_detection = none;
    injection_echo = none;
    result_size = some (record { enabled = none; max_chars = none });
    response_classifier = none;
    hallucination_flag = none;
  });
}

abbrev pub silent_rate_limit : RateLimitDoc
silent_rate_limit = record { enabled = none; global = none; per_identity = none; per_tool = none }

abbrev pub silent_auth : AuthDoc
silent_auth = record { enabled = none; strategies = none }

abbrev pub silent_tools : ToolsDoc
silent_tools = record { manifest_dir = none; max_tool_iterations = none }

-- A section that is there and says nothing is read as one that is left out, whatever the rest of
-- the configuration, for the pipeline, the authentication and the rate limits; for the tools it is
-- not: there the maximum of iterations is 10 with the section and 0 without it.
pub read_silent :
    (d : SphereDoc)
    → (read (record d { pipeline = some silent_pipeline }) ≡ read (record d { pipeline = none }))
      × (read (record d { auth = some silent_auth }) ≡ read (record d { auth = none }))
      × (read (record d { rate_limit = some silent_rate_limit })
          ≡ read (record d { rate_limit = none }))
      × ((read (record d { tools = some silent_tools })).tools.max_tool_iterations ≡ 10)
      × ((read (record d { tools = none })).tools.max_tool_iterations ≡ 0)
unfolding read read_pipeline read_auth read_rate_limit read_tools
read_silent d = (refl, refl, refl, refl, refl)
