-- ===== src/Tools/Registry.antt =====
-- sphere/src/tools/registry.rs
pub mod Uniqueness
use intellisphere.Common.{
  ℕ, String, Bool, true, false, Option, List, [], ◌∷◌, map, Result, ok, err, length, if◌then◌else◌,
}
use intellisphere.Common.Text.{◌<>◌}
use intellisphere.Common.Dict.{Dict, lookup, insert, contains_key}

pub data ToolZone : Type 0 where
  sphere satellite wasm : ToolZone

abbrev pub is_satellite : ToolZone → Bool
is_satellite sphere = false
is_satellite satellite = true
is_satellite wasm = false

pub record ToolRegistration : Type 0 where
  pub name : String
  pub description : String
  pub input_schema_json : String
  pub zone : ToolZone
  pub required_scopes : List String
  pub required_roles : List String
  pub handler_url : Option String
  pub timeout_ms : ℕ

pub record ToolRegistry : Type 0 where
  pub tools : Dict ToolRegistration

abbrev pub new : ToolRegistry
new = record { tools = [] }

-- A refused registration leaves the registry as it was.
unfoldable pub register : ToolRegistration → ToolRegistry → Result (Unit {0}) String × ToolRegistry
register tool r =
    if contains_key tool.name r.tools
    then (err ("Tool '" <> tool.name <> "' is already registered"), r)
    else (ok tt, record { tools = insert tool.name tool r.tools })

unfoldable pub get : String → ToolRegistry → Option ToolRegistration
get name r = lookup name r.tools

abbrev pub tools_of : Dict ToolRegistration → List ToolRegistration
tools_of [] = []
tools_of ((k, t) ∷ m) = t ∷ tools_of m

unfoldable pub all_tools : ToolRegistry → List ToolRegistration
all_tools r = tools_of r.tools

unfoldable pub len : ToolRegistry → ℕ
len r = length r.tools
