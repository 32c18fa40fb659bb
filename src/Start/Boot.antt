-- ===== src/Start/Boot.antt =====
-- sphere/src/main.rs: what `main` does from the configuration to the server. figment's loading, the
-- gRPC connection, the parser of socket addresses, the listener and axum's server are parameters,
-- each with its errors; the table of routes is what the server is given.
use intellisphere.Common.{ℕ, String, Option, none, some, List, Result, ◌>>=◌, map_err}
use intellisphere.Common.Float.{Float}
use intellisphere.Auth.Jwt.{Claims, Validation}
use intellisphere.Config.Service.{SphereConfig}
use intellisphere.Core.{LlmCoreClient, connect}
use intellisphere.Pipeline.Regex.{RegexEngine}
use intellisphere.Api.Routes.{Route, routes}
use intellisphere.Start.{AppState, start}

-- The cause of a failed start, and the context that `anyhow` puts before it.
pub data Cause (LoadError TransportError AddressError IoError : Type 0) : Type 0 where
  load : LoadError → Cause LoadError TransportError AddressError IoError
  transport : TransportError → Cause LoadError TransportError AddressError IoError
  address : AddressError → Cause LoadError TransportError AddressError IoError
  io : IoError → Cause LoadError TransportError AddressError IoError

pub record Failure (C : Type 0) : Type 0 where
  pub context : Option String
  pub cause : C

abbrev failure : {C : Type 0} → String → C → Failure C
failure context cause = record { context = some context; cause = cause }

abbrev bare : {C : Type 0} → C → Failure C
bare cause = record { context = none; cause = cause }

module _ {F Chunk Status LoadError TransportError AddressError IoError Address Listener : Type 0}
    ⦃fl : Float F⦄ (re : RegexEngine) (to_lowercase : String → String)
    (decode : Validation → String → Result Claims String)
    (connect_to : String → Result (LlmCoreClient Chunk Status) TransportError)
    (parse : String → Result Address AddressError) (bind : Address → Result Listener IoError)
    (serve : Listener → List Route → AppState F Chunk Status → Result (Unit {0}) IoError) where
  -- `loaded` is what `SphereConfig::load` returns, `secret` the environment variable.
  unfoldable pub main :
      Result SphereConfig LoadError
      → Option String
      → ℕ
      → Result (Unit {0}) (Failure (Cause LoadError TransportError AddressError IoError))
  main loaded secret now = do
    config ← map_err (λ e. failure "Failed to load configuration" (load e)) loaded
    core_client ←
        map_err (λ e. failure "Failed to connect to Core" (transport e))
          (connect connect_to config.core_grpc_url)
    let state = start re to_lowercase decode config core_client secret now
    addr ← map_err (λ e. bare (address e)) (parse config.listen_addr)
    listener ← map_err (λ e. bare (io e)) (bind addr)
    map_err (λ e. bare (io e)) (serve listener routes state)
