-- ===== src/Api/Routes.antt =====
-- sphere/src/api/mod.rs: the table of routes that axum is given.
use intellisphere.Common.{String, List, [], ◌∷◌}

pub data HttpMethod : Type 0 where
  get post : HttpMethod

-- A handler, by the module that it is in.
pub data Handler : Type 0 where
  chat chat_stream health create_session ws_upgrade : Handler

pub record Route : Type 0 where
  pub path : String
  pub method : HttpMethod
  pub handler : Handler

abbrev route : String → HttpMethod → Handler → Route
route path method handler = record { path = path; method = method; handler = handler }

abbrev pub routes : List Route
routes =
    route "/v1/chat" post chat
    ∷ route "/v1/chat/stream" post chat_stream
    ∷ route "/health" get health
    ∷ route "/v1/satellite/session" post create_session
    ∷ route "/satellite" get ws_upgrade
    ∷ []
