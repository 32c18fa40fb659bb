-- ===== src/Errors.antt =====
-- sphere/src/errors.rs: the errors of the Sphere and the HTTP responses they become.
use intellisphere.Common.{ℕ, String}
use intellisphere.Common.Text.{◌<>◌}

-- `internal` holds the text of the `anyhow` error.
pub data SphereError : Type 0 where
  auth_error : String → SphereError
  rate_limited : SphereError
  filter_rejected : String → String → SphereError
  core_unavailable core_error tool_error outbound_rejected policy_violation internal :
      String → SphereError

-- The `Display` text.
unfoldable pub error_text : SphereError → String
error_text (auth_error s) = "Authentication failed: " <> s
error_text rate_limited = "Rate limit exceeded"
error_text (filter_rejected f r) = "Request rejected by filter '" <> f <> "': " <> r
error_text (core_unavailable s) = "Core unavailable: " <> s
error_text (core_error s) = "Core error: " <> s
error_text (tool_error s) = "Tool error: " <> s
error_text (outbound_rejected s) = "Outbound filter rejected: " <> s
error_text (policy_violation s) = "Policy violation: " <> s
error_text (internal s) = "Internal error: " <> s

abbrev status_and_code : SphereError → ℕ × String
status_and_code (auth_error s) = (401, "AUTH_FAILED")
status_and_code rate_limited = (429, "RATE_LIMITED")
status_and_code (filter_rejected f r) = (400, "FILTER_REJECTED")
status_and_code (core_unavailable s) = (503, "CORE_UNAVAILABLE")
status_and_code (core_error s) = (502, "CORE_ERROR")
status_and_code (tool_error s) = (500, "TOOL_ERROR")
status_and_code (outbound_rejected s) = (422, "OUTBOUND_REJECTED")
status_and_code (policy_violation s) = (403, "POLICY_VIOLATION")
status_and_code (internal s) = (500, "INTERNAL_ERROR")

pub record ErrorResponse : Type 0 where
  pub status : ℕ
  pub error : String
  pub code : String
  pub message : String

unfoldable pub into_response : SphereError → ErrorResponse
unfolding error_text
into_response e =
    let (status, code) = status_and_code e in
    record { status = status; error = code; code = code; message = error_text e }
