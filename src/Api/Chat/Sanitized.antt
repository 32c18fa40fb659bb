-- ===== src/Api/Chat/Sanitized.antt =====
-- What of the caller's text reaches the Core.
use intellisphere.Common.{◌≡◌, List, ◌++◌}
use intellisphere.Proto.{Message, CompletionRequest}
use intellisphere.Pipeline.Context
use intellisphere.Pipeline.Inbound.Sanitization
use intellisphere.Pipeline.Inbound.Sanitization.{allowed, filter_chars}
use intellisphere.Pipeline.Inbound.Sanitization.Clean.{AllChars}
use intellisphere.Api.Chat.{ChatMessage, plain}

abbrev pub IsClean : Message → Type 0
IsClean m = AllChars allowed m.content

-- A message of the caller, without the characters that are not allowed.
abbrev pub stripped : ChatMessage → Message
stripped m = plain m.role (filter_chars allowed m.content)

-- A request to the Core begins with the clean messages of the caller.
abbrev pub OpensWith : List Message → CompletionRequest → Type 0
OpensWith callers r = (later : List Message) × (r.messages ≡ callers ++ later)
