-- ===== src/Provider.antt =====
-- internal/domain/provider/target.go: a protocol name and an upstream target.
use kokekokkor.Common.{String, Bool, ◌||◌, ◌==◌, string_eq, if◌then◌else◌}

abbrev pub Protocol : Type 0
Protocol = String

abbrev pub protocol_open_ai : Protocol
protocol_open_ai = "openai"

abbrev pub protocol_anthropic : Protocol
protocol_anthropic = "anthropic"

abbrev pub protocol_gemini : Protocol
protocol_gemini = "gemini"

pub record Target : Type 0 where
  pub id : String
  pub protocol : Protocol
  pub base_url : String
  pub api_key : String

unfoldable pub effective_protocol : Target → Protocol
effective_protocol t = if t.protocol == "" then protocol_open_ai else t.protocol

-- The `switch` over the three protocols, which router.go and catalog.go write in place.
unfoldable pub is_known_protocol : Protocol → Bool
is_known_protocol p = p == protocol_open_ai || p == protocol_anthropic || p == protocol_gemini
