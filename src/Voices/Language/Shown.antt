-- ===== src/Voices/Language/Shown.antt =====
-- When a voice's card can show the voice's language (Voices.Language), and what saving a language
-- in the card's dialog leads to (Voices.Card).
use go_grpc_microservices.Prelude.{String, Option}
use go_grpc_microservices.Async.{Settled}
use go_grpc_microservices.Voices.Mutations.{VoiceRequest, update_voice}
use go_grpc_microservices.Voices.Categories.{map_edit_category}
use go_grpc_microservices.Voices.Card.{VoiceItem, VoiceCard}

module _ (upper : String → String) (region_name : String → Settled (Option String)) where
  -- What the service is asked for when the dialog is saved: the voice's id, what the user typed, and
  -- the category that was chosen.
  abbrev pub typed : VoiceItem → VoiceCard → VoiceRequest
  typed v s = update_voice v.id s.name s.description (map_edit_category s.category) s.language
