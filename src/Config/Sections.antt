-- ===== src/Config/Sections.antt =====
-- sphere/src/config/mod.rs: the sections of the configuration as the merged files may give them. A
-- field that is left out is `none`; a section that is present with a field left out takes the
-- field's default, one that is left out altogether the section's.
use intellisphere.Common.{ℕ, Bool, true, false, Option, none, some, List, [], map, unwrap_or}
use intellisphere.Common.Dict.{Dict}
use intellisphere.Config.{
  RateLimitRule, RateLimitConfig, AuthConfig, AuthStrategyConfig, InputSanitizationConfig,
  ResultSizeConfig, OutboundConfig, PipelineConfig, default_rate_limit, default_input_sanitization,
  default_outbound, default_pipeline,
}

-- The derived `AuthConfig::default`
abbrev pub default_auth : AuthConfig
default_auth = record { enabled = false; strategies = [] }

pub record AuthDoc : Type 0 where
  pub enabled : Option Bool
  pub strategies : Option (List AuthStrategyConfig)

unfoldable pub read_auth : Option AuthDoc → AuthConfig
read_auth none = default_auth
read_auth (some d) = record {
  enabled = unwrap_or d.enabled false;
  strategies = unwrap_or d.strategies [];
}

pub record RateLimitRuleDoc : Type 0 where
  pub requests_per_minute : Option ℕ
  pub burst : Option ℕ

abbrev pub read_rule : RateLimitRuleDoc → RateLimitRule
read_rule d = record {
  requests_per_minute = unwrap_or d.requests_per_minute 60;
  burst = unwrap_or d.burst 10;
}

abbrev pub rule_or : RateLimitRule → Option RateLimitRuleDoc → RateLimitRule
rule_or rule none = rule
rule_or rule (some d) = read_rule d

pub record RateLimitDoc : Type 0 where
  pub enabled : Option Bool
  pub global : Option RateLimitRuleDoc
  pub per_identity : Option RateLimitRuleDoc
  pub per_tool : Option (Dict RateLimitRuleDoc)

unfoldable pub read_rate_limit : Option RateLimitDoc → RateLimitConfig
read_rate_limit none = default_rate_limit
read_rate_limit (some d) = record {
  enabled = unwrap_or d.enabled false;
  global = rule_or default_rate_limit.global d.global;
  per_identity = rule_or default_rate_limit.per_identity d.per_identity;
  per_tool = map (λ e. (e.0, read_rule e.1)) (unwrap_or d.per_tool []);
}

pub record InputSanitizationDoc : Type 0 where
  pub enabled : Option Bool
  pub strip_control_chars : Option Bool
  pub normalize_unicode : Option Bool
  pub reject_null_bytes : Option Bool

abbrev pub read_input_sanitization : Option InputSanitizationDoc → InputSanitizationConfig
read_input_sanitization none = default_input_sanitization
read_input_sanitization (some d) = record {
  enabled = unwrap_or d.enabled true;
  strip_control_chars = unwrap_or d.strip_control_chars true;
  normalize_unicode = unwrap_or d.normalize_unicode true;
  reject_null_bytes = unwrap_or d.reject_null_bytes true;
}

pub record InboundDoc : Type 0 where
  pub input_sanitization : Option InputSanitizationDoc

abbrev pub read_inbound : Option InboundDoc → InputSanitizationConfig
read_inbound none = default_input_sanitization
read_inbound (some d) = read_input_sanitization d.input_sanitization

pub record OutboundFilterToggle : Type 0 where
  pub enabled : Option Bool

abbrev pub read_toggle : Option OutboundFilterToggle → Bool
read_toggle none = false
read_toggle (some t) = unwrap_or t.enabled false

pub record ResultSizeDoc : Type 0 where
  pub enabled : Option Bool
  pub max_chars : Option ℕ

abbrev pub read_result_size : Option ResultSizeDoc → ResultSizeConfig
read_result_size none = default_outbound.result_size
read_result_size (some d) = record {
  enabled = unwrap_or d.enabled false;
  max_chars = unwrap_or d.max_chars 100000;
}

pub record OutboundDoc : Type 0 where
  pub pii_leak_detection : Option OutboundFilterToggle
  pub injection_echo : Option OutboundFilterToggle
  pub result_size : Option ResultSizeDoc
  pub response_classifier : Option OutboundFilterToggle
  pub hallucination_flag : Option OutboundFilterToggle

abbrev pub read_outbound : Option OutboundDoc → OutboundConfig
read_outbound none = default_outbound
read_outbound (some d) = record {
  pii_leak_detection = read_toggle d.pii_leak_detection;
  injection_echo = read_toggle d.injection_echo;
  result_size = read_result_size d.result_size;
  response_classifier = read_toggle d.response_classifier;
  hallucination_flag = read_toggle d.hallucination_flag;
}

pub record PipelineDoc : Type 0 where
  pub inbound : Option InboundDoc
  pub outbound : Option OutboundDoc

unfoldable pub read_pipeline : Option PipelineDoc → PipelineConfig
read_pipeline none = default_pipeline
read_pipeline (some d) = record {
  input_sanitization = read_inbound d.inbound;
  outbound = read_outbound d.outbound;
}
