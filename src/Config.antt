-- ===== src/Config.antt =====
-- sphere/src/config/mod.rs: the configuration and its defaults. A section that the configuration
-- files leave out is `none` in a `Doc`; the functions say what serde's attributes make of it.
pub mod Sections
pub mod Service
use intellisphere.Common.{ℕ, String, Bool, true, false, Option, none, some, List, [], unwrap_or}
use intellisphere.Common.Dict.{Dict}

pub record RateLimitRule : Type 0 where
  pub requests_per_minute : ℕ
  pub burst : ℕ

pub record RateLimitConfig : Type 0 where
  pub enabled : Bool
  pub global : RateLimitRule
  pub per_identity : RateLimitRule
  pub per_tool : Dict RateLimitRule

-- `RateLimitConfig::default`
abbrev pub default_rate_limit : RateLimitConfig
default_rate_limit = record {
  enabled = false;
  global = record { requests_per_minute = 600; burst = 50 };
  per_identity = record { requests_per_minute = 60; burst = 10 };
  per_tool = [];
}

pub record ApiKeyEntry : Type 0 where
  pub key : String
  pub identity_sub : String
  pub roles : List String
  pub scopes : List String

pub data AuthStrategyConfig : Type 0 where
  jwt : String → Option String → Option String → AuthStrategyConfig
  api_key : List ApiKeyEntry → AuthStrategyConfig

pub record AuthConfig : Type 0 where
  pub enabled : Bool
  pub strategies : List AuthStrategyConfig

pub record InputSanitizationConfig : Type 0 where
  pub enabled : Bool
  pub strip_control_chars : Bool
  pub normalize_unicode : Bool
  pub reject_null_bytes : Bool

-- `InputSanitizationConfig::default`
abbrev pub default_input_sanitization : InputSanitizationConfig
default_input_sanitization = record {
  enabled = true;
  strip_control_chars = true;
  normalize_unicode = true;
  reject_null_bytes = true;
}

pub record ResultSizeConfig : Type 0 where
  pub enabled : Bool
  pub max_chars : ℕ

-- Each toggle record of the source is its one field `enabled`.
pub record OutboundConfig : Type 0 where
  pub pii_leak_detection : Bool
  pub injection_echo : Bool
  pub result_size : ResultSizeConfig
  pub response_classifier : Bool
  pub hallucination_flag : Bool

abbrev pub default_outbound : OutboundConfig
default_outbound = record {
  pii_leak_detection = false;
  injection_echo = false;
  result_size = record { enabled = false; max_chars = 100000 };
  response_classifier = false;
  hallucination_flag = false;
}

pub record PipelineConfig : Type 0 where
  pub input_sanitization : InputSanitizationConfig
  pub outbound : OutboundConfig

-- `PipelineConfig::default`
abbrev pub default_pipeline : PipelineConfig
default_pipeline = record {
  input_sanitization = default_input_sanitization;
  outbound = default_outbound;
}

pub record ToolsConfig : Type 0 where
  pub manifest_dir : Option String
  pub max_tool_iterations : ℕ

-- The derived `ToolsConfig::default`: `usize` defaults to zero.
abbrev pub default_tools : ToolsConfig
default_tools = record { manifest_dir = none; max_tool_iterations = 0 }

-- A `tools` section that is present: a missing field takes the field's default.
pub record ToolsDoc : Type 0 where
  pub manifest_dir : Option String
  pub max_tool_iterations : Option ℕ

abbrev pub read_tools_section : ToolsDoc → ToolsConfig
read_tools_section d = record {
  manifest_dir = d.manifest_dir;
  max_tool_iterations = unwrap_or d.max_tool_iterations 10;
}

-- The field `tools` of `SphereConfig`: a missing section takes the section's default.
unfoldable pub read_tools : Option ToolsDoc → ToolsConfig
read_tools none = default_tools
read_tools (some d) = read_tools_section d
