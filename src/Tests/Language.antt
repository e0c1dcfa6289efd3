-- ===== src/Tests/Language.antt =====
-- The language of a voice (Voices.Language) at concrete inputs.
use go_grpc_microservices.Prelude.{
  ◌≡◌, refl, true, false, String, Option, some, [], ◌==◌, if◌then◌else◌,
}
use go_grpc_microservices.Async.{Settled, resolved, rejected}
use go_grpc_microservices.Voices.Categories.{general, general_option}
use go_grpc_microservices.Voices.Mutations.{VoiceRequest, VoiceReply, voice}
use go_grpc_microservices.Voices.Card.{VoiceItem, VoiceCard}
use go_grpc_microservices.Voices.Language.{parse_language, country_of, before_dash, after_dash}

abbrev upper : String → String
upper s = s

-- The regions that this browser knows.
abbrev region_name : String → Settled (Option String)
region_name c = if c == "US" then resolved (some "United States") else rejected "RangeError: Latin"

abbrev service : VoiceRequest → VoiceReply
service _ = voice (some (record { id = "v1"; name = "Ann" }))

abbrev item : VoiceItem
item = record {
  id = "v1";
  name = "Ann";
  description = some "";
  language = "en-US";
  category = general;
}

abbrev card : VoiceCard
card = record {
  is_edit_open = true;
  is_delete_open = false;
  name = "Ann";
  description = "";
  language = "sr-Latin";
  category = general_option;
  client = record { sent = []; invalidated = false; forgotten = [] };
  toasts = [];
}

latin_throws : parse_language upper region_name "sr-Latin" ≡ rejected "RangeError: Latin"
unfolding parse_language country_of before_dash after_dash
latin_throws = refl
