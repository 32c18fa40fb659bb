-- ===== src/Proto/StopNames.antt =====
-- The names of `StopReason` in sphere/src/proto/intellisphere.v1.rs
use intellisphere.Common.{String, ◌≡◌, refl, Option, none, some, str_eq, if◌then◌else◌}
use intellisphere.Proto.ByName.{named_by}
use intellisphere.Proto.{StopReason, unspecified, end_turn, tool_use, max_tokens, stop_sequence}

unfoldable pub as_str_name : StopReason → String
as_str_name unspecified = "STOP_REASON_UNSPECIFIED"
as_str_name end_turn = "STOP_REASON_END_TURN"
as_str_name tool_use = "STOP_REASON_TOOL_USE"
as_str_name max_tokens = "STOP_REASON_MAX_TOKENS"
as_str_name stop_sequence = "STOP_REASON_STOP_SEQUENCE"

unfoldable pub from_str_name : String → Option StopReason
from_str_name value =
    if str_eq value "STOP_REASON_UNSPECIFIED"
    then some unspecified
    else if str_eq value "STOP_REASON_END_TURN"
    then some end_turn
    else if str_eq value "STOP_REASON_TOOL_USE"
    then some tool_use
    else if str_eq value "STOP_REASON_MAX_TOKENS"
    then some max_tokens
    else if str_eq value "STOP_REASON_STOP_SEQUENCE"
    then some stop_sequence
    else none

-- Every value is read back from its name.
pub from_str_name-as_str_name : (r : StopReason) → from_str_name (as_str_name r) ≡ some r
unfolding as_str_name from_str_name
from_str_name-as_str_name unspecified = refl
from_str_name-as_str_name end_turn = refl
from_str_name-as_str_name tool_use = refl
from_str_name-as_str_name max_tokens = refl
from_str_name-as_str_name stop_sequence = refl

-- No other name is read as a value.
pub from_str_name_sound :
    (s : String) (r : StopReason) → from_str_name s ≡ some r → s ≡ as_str_name r
unfolding from_str_name as_str_name
from_str_name_sound s r = named_by as_str_name s _ unspecified r _ refl (
    named_by as_str_name s _ end_turn r _ refl (
      named_by as_str_name s _ tool_use r _ refl (
        named_by as_str_name s _ max_tokens r _ refl
          (named_by as_str_name s _ stop_sequence r _ refl (λ h. cc)))))
