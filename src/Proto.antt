-- ===== src/Proto.antt =====
-- The protocol messages of sphere/src/proto/intellisphere.v1.rs that the Sphere passes on. An
-- `i32` is its bit pattern, a number below 2 ^ 32, and an `f32` is its bit pattern too.
pub mod ByName
pub mod Names
pub mod StopNames
pub mod ChunkNames
use intellisphere.Common.{ℕ, String, Bool, Option, List}

pub record ToolCall : Type 0 where
  pub call_id : String
  pub name : String
  pub arguments_json : String

pub record ToolResult : Type 0 where
  pub call_id : String
  pub result_json : String
  pub is_error : Bool

pub record Message : Type 0 where
  pub role : String
  pub content : String
  pub tool_results : List ToolResult
  pub tool_calls : List ToolCall

pub record ToolDefinition : Type 0 where
  pub name : String
  pub description : String
  pub input_schema_json : String

pub record Usage : Type 0 where
  pub input_tokens : ℕ
  pub output_tokens : ℕ

pub data StopReason : Type 0 where
  unspecified end_turn tool_use max_tokens stop_sequence : StopReason

pub data ChunkType : Type 0 where
  unspecified text_delta tool_call_start tool_call_delta tool_call_end message_end : ChunkType

-- The enumerations of a chunk are the numbers that it carries.
pub record CompletionChunk : Type 0 where
  pub delta : String
  pub tool_call : Option ToolCall
  pub stop_reason : ℕ
  pub usage : Option Usage
  pub chunk_type : ℕ

-- `metadata` carries the request's ids only; its timestamp is always absent.
pub record CompletionRequest : Type 0 where
  pub provider : String
  pub model : String
  pub system : String
  pub messages : List Message
  pub max_tokens : ℕ
  pub temperature : ℕ
  pub tools : List ToolDefinition
  pub stop_sequences : List String
  pub request_id : String
  pub session_id : String

-- `stop_reason` is what the generated accessor `stop_reason()` returns.
pub record CompletionResponse : Type 0 where
  pub content : String
  pub tool_calls : List ToolCall
  pub stop_reason : StopReason
  pub usage : Option Usage
  pub model : String
