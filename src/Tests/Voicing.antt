-- ===== src/Tests/Voicing.antt =====
-- The form for new speech while voices come and go (TextToSpeech.Pages.Keyed,
-- TextToSpeech.Selector) at concrete inputs.
use go_grpc_microservices.Prelude.{◌≡◌, refl, none, some, [], ◌∷◌}
use go_grpc_microservices.Voices.Categories.{general}
use go_grpc_microservices.TextToSpeech.Form.{TtsVoiceItem, TtsFormValues, default_tts_values}
use go_grpc_microservices.TextToSpeech.Pages.Keyed.{render, filled_in_lost}
use go_grpc_microservices.TextToSpeech.Pages.{new_defaults, resolve_voice}
use go_grpc_microservices.TextToSpeech.Selector.{ListedVoice}

abbrev ann : TtsVoiceItem
ann = record { id = "v1"; name = "Ann"; language = "en-US" }

-- Filled in before the voices came.
abbrev typed : TtsFormValues
typed = record default_tts_values { text = "Once upon a time"; temperature = 90 }

filled_in_lost_example :
    (render none [] (ann ∷ []) (some (record (render none [] [] none) { values = typed }))).values
    ≡ record default_tts_values { voice_id = (new_defaults none [] (ann ∷ [])).voice_id }
unfolding new_defaults resolve_voice
filled_in_lost_example = filled_in_lost [] typed (ann ∷ []) refl refl

abbrev listed : ListedVoice
listed = record { item = ann; category = general }
