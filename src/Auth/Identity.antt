-- ===== src/Auth/Identity.antt =====
-- sphere/src/auth/identity.rs
use intellisphere.Common.{String, List, []}
use intellisphere.Common.Dict.{Dict}

pub record Identity : Type 0 where
  pub sub : String
  pub roles : List String
  pub scopes : List String
  pub metadata : Dict String

abbrev pub anonymous : Identity
anonymous = record { sub = "anonymous"; roles = []; scopes = []; metadata = [] }
