-- ===== src/Tools/Interceptor/Truncation.antt =====
-- What becomes of a large result.
use text.Mathlib.TextPositions.{boundary-zero}
use intellisphere.Common.{◌≤◌, ◌<◌, ◌≡◌, true, false, none, some, arith}
use intellisphere.Common.Text.{str_len, slice, is_char_boundary}
use intellisphere.Proto.{ToolResult}
use intellisphere.Tools.Json.{JsonLib}
use intellisphere.Tools.Interceptor.{max_result_size, enforce_size}

module _ {Val : Type 0} (json : JsonLib Val) where
  -- A result of at most a mebibyte is passed on unchanged. A longer one is cut to exactly that
  -- length where its text has a character boundary there; where it has none, the slice panics.
  pub enforce_size_cases :
      (r : ToolResult)
      → (str_len r.result_json ≤ max_result_size → enforce_size json r ≡ some r)
        × (max_result_size < str_len r.result_json
            → is_char_boundary r.result_json max_result_size ≡ true
            → (enforce_size json r
                ≡ some (record r { result_json = slice r.result_json 0 max_result_size }))
              × (str_len (slice r.result_json 0 max_result_size) ≡ max_result_size))
        × (max_result_size < str_len r.result_json
            → is_char_boundary r.result_json max_result_size ≡ false
            → enforce_size json r ≡ none)
  unfolding enforce_size
  enforce_size_cases r = (
    λ h. ground arith,
    λ h b. (ground (arith, boundary-zero r.result_json), ground arith),
    λ h b. ground (arith, boundary-zero r.result_json),
  )
