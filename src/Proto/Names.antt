-- ===== src/Proto/Names.antt =====
-- Names of the protocol's enumerations, both ways.
use intellisphere.Common.{String, ◌≡◌, ◌↔◌, some, ap, ◌∙◌}
use intellisphere.Proto.{StopReason, ChunkType}
use intellisphere.Proto.StopNames
use intellisphere.Proto.ChunkNames

-- A text is read as a stop reason exactly when it is the name of that stop reason, and as a chunk
-- type exactly when it is the name of that chunk type.
pub from_str_name_exact :
    ((s : String) (r : StopReason)
      → StopNames.from_str_name s ≡ some r ↔ s ≡ StopNames.as_str_name r)
    × ((s : String) (c : ChunkType)
        → ChunkNames.from_str_name s ≡ some c ↔ s ≡ ChunkNames.as_str_name c)
from_str_name_exact = (
  λ s r. (
    StopNames.from_str_name_sound s r,
    λ e. ap StopNames.from_str_name e ∙ StopNames.from_str_name-as_str_name r,
  ),
  λ s c. (
    ChunkNames.from_str_name_sound s c,
    λ e. ap ChunkNames.from_str_name e ∙ ChunkNames.from_str_name-as_str_name c,
  ),
)
