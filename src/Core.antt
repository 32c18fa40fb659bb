-- ===== src/Core.antt =====
-- sphere/src/core_client/grpc.rs. The generated gRPC client and its transport are a parameter: what
-- it answers to each call, a status where it fails.
use intellisphere.Common.{String, Bool, List, Result, ok, ◌>>=◌}
use intellisphere.Proto.{CompletionRequest, CompletionResponse}

-- The messages `HealthRequest` and `HealthResponse`
pub record HealthRequest : Type 0 where

pub record HealthResponse : Type 0 where
  pub healthy : Bool
  pub provider : String
  pub message : String

-- The calls of `LlmCoreClient`: a status has a message.
pub record LlmCoreClient (Chunk Status : Type 0) : Type 0 where
  pub complete : CompletionRequest → Result CompletionResponse Status
  pub complete_stream : CompletionRequest → Result (List (Result Chunk Status)) Status
  pub health : HealthRequest → Result HealthResponse Status

pub record CoreClient (Chunk Status : Type 0) : Type 0 where
  pub inner : LlmCoreClient Chunk Status

module _ {Chunk Status TransportError : Type 0} where
  -- `connect_to` is `LlmCoreClient::connect`.
  unfoldable pub connect :
      (String → Result (LlmCoreClient Chunk Status) TransportError)
      → String
      → Result (CoreClient Chunk Status) TransportError
  connect connect_to url = do inner ← connect_to url; ok (record { inner = inner })

module _ {Chunk Status : Type 0} where
  unfoldable pub complete :
      CoreClient Chunk Status → CompletionRequest → Result CompletionResponse Status
  complete c request = c.inner.complete request

  unfoldable pub complete_stream :
      CoreClient Chunk Status → CompletionRequest → Result (List (Result Chunk Status)) Status
  complete_stream c request = c.inner.complete_stream request

  unfoldable pub health : CoreClient Chunk Status → Result HealthResponse Status
  health c = c.inner.health (record {})
