-- ===== src/Tools/Json.antt =====
-- The crates `serde_json` and `jsonschema` as the tools use them, as a parameter. `Val` is a JSON
-- value; `compile` makes of a schema the function that lists the errors of a value.
use intellisphere.Common.{String, Option, List, Result}

pub record JsonLib (Val : Type 0) : Type 0 where
  pub from_str : String → Result Val String
  pub null : Val
  -- `value.get("message").and_then(|v| v.as_str())`
  pub message_of : Val → Option String
  pub compile : Val → Result (Val → List String) String
  -- the texts of `{"error": .., "message": ..}` and of `{"echo": .., "timestamp": ..}`
  pub error_body : String → String → String
  pub echo_body : String → String → String
