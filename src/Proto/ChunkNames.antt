-- ===== src/Proto/ChunkNames.antt =====
-- The names of `ChunkType` in sphere/src/proto/intellisphere.v1.rs
use intellisphere.Common.{String, ◌≡◌, refl, Option, none, some, str_eq, if◌then◌else◌}
use intellisphere.Proto.ByName.{named_by}
use intellisphere.Proto.{
  ChunkType, text_delta, tool_call_start, tool_call_delta, tool_call_end, message_end,
}

unfoldable pub as_str_name : ChunkType → String
as_str_name ChunkType.unspecified = "CHUNK_TYPE_UNSPECIFIED"
as_str_name text_delta = "CHUNK_TYPE_TEXT_DELTA"
as_str_name tool_call_start = "CHUNK_TYPE_TOOL_CALL_START"
as_str_name tool_call_delta = "CHUNK_TYPE_TOOL_CALL_DELTA"
as_str_name tool_call_end = "CHUNK_TYPE_TOOL_CALL_END"
as_str_name message_end = "CHUNK_TYPE_MESSAGE_END"

unfoldable pub from_str_name : String → Option ChunkType
from_str_name value =
    if str_eq value "CHUNK_TYPE_UNSPECIFIED"
    then some ChunkType.unspecified
    else if str_eq value "CHUNK_TYPE_TEXT_DELTA"
    then some text_delta
    else if str_eq value "CHUNK_TYPE_TOOL_CALL_START"
    then some tool_call_start
    else if str_eq value "CHUNK_TYPE_TOOL_CALL_DELTA"
    then some tool_call_delta
    else if str_eq value "CHUNK_TYPE_TOOL_CALL_END"
    then some tool_call_end
    else if str_eq value "CHUNK_TYPE_MESSAGE_END"
    then some message_end
    else none

-- Every value is read back from its name.
pub from_str_name-as_str_name : (r : ChunkType) → from_str_name (as_str_name r) ≡ some r
unfolding as_str_name from_str_name
from_str_name-as_str_name ChunkType.unspecified = refl
from_str_name-as_str_name text_delta = refl
from_str_name-as_str_name tool_call_start = refl
from_str_name-as_str_name tool_call_delta = refl
from_str_name-as_str_name tool_call_end = refl
from_str_name-as_str_name message_end = refl

-- No other name is read as a value.
pub from_str_name_sound :
    (s : String) (r : ChunkType) → from_str_name s ≡ some r → s ≡ as_str_name r
unfolding from_str_name as_str_name
from_str_name_sound s r = named_by as_str_name s _ ChunkType.unspecified r _ refl (
    named_by as_str_name s _ text_delta r _ refl (
      named_by as_str_name s _ tool_call_start r _ refl (
        named_by as_str_name s _ tool_call_delta r _ refl (
          named_by as_str_name s _ tool_call_end r _ refl
            (named_by as_str_name s _ message_end r _ refl (λ h. cc))))))
