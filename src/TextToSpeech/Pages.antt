-- ===== src/TextToSpeech/Pages.antt =====
-- The pages of web/src/modules/text-to-speech/views, the selector of voices
-- (components/voice-selector.tsx), and the panel of the dashboard that leads to them
-- (web/src/modules/dashboard/components/text-input-panel.tsx): what they show and fill in.
pub mod Defaults
pub mod Finished
pub mod Keyed
use go_grpc_microservices.Prelude.{
  ℕ, String, Bool, true, false, not, ◌&&◌, ◌||◌, Option, none, some, List, [], ◌∷◌, ◌==◌,
  if◌then◌else◌,
}
use go_grpc_microservices.Text.{is_empty, absent, trim}
use go_grpc_microservices.TextToSpeech.Form.{
  TtsVoiceItem, TtsFormValues, default_tts_values, find_voice,
}
use go_grpc_microservices.TextToSpeech.Generations.{
  Status, unspecified, queued, processing, completed, failed, GenerationDetail, is_active,
}

-- `Partial<TTSFormValues>`
pub record InitialValues : Type 0 where
  pub text : Option String
  pub voice_id : Option String
  pub temperature : Option ℕ
  pub exaggeration : Option ℕ
  pub cfg_weight : Option ℕ

abbrev pub get_or {ℓ} : {A : Type ℓ} → A → Option A → A
get_or d none = d
get_or d (some a) = a

-- `a ?? b`
abbrev pub or_else : Option String → Option String → Option String
or_else none b = b
or_else (some a) b = some a

-- The parameters of an address, decoded; `searchParams.get`.
abbrev pub SearchParams : Type 0
SearchParams = List (String × String)

abbrev pub param : String → SearchParams → Option String
param k [] = none
param k ((j, v) ∷ ps) = if j == k then some v else param k ps

-- `allVoices[0]?.id ?? ""`
abbrev pub first_id : List TtsVoiceItem → String
first_id [] = ""
first_id (v ∷ vs) = v.id

abbrev pub offers : String → List TtsVoiceItem → Bool
offers id [] = false
offers id (v ∷ vs) = v.id == id || offers id vs

-- The requested voice if it is offered, else the first one.
unfoldable pub resolve_voice : String → List TtsVoiceItem → String
resolve_voice requested voices =
    if not (is_empty requested) && offers requested voices then requested else first_id voices

-- `defaultValues` of `TextToSpeechView`
unfoldable pub new_defaults :
    Option InitialValues → SearchParams → List TtsVoiceItem → TtsFormValues
unfolding resolve_voice
new_defaults none params voices = record default_tts_values {
  voice_id = resolve_voice (get_or "" (param "voiceId" params)) voices;
}
new_defaults (some i) params voices = record {
  text = get_or default_tts_values.text i.text;
  voice_id = resolve_voice (get_or "" (or_else i.voice_id (param "voiceId" params))) voices;
  temperature = get_or default_tts_values.temperature i.temperature;
  exaggeration = get_or default_tts_values.exaggeration i.exaggeration;
  cfg_weight = get_or default_tts_values.cfg_weight i.cfg_weight;
}

-- `defaultValues` of `TextToSpeechDetailView`
unfoldable pub detail_defaults : GenerationDetail → List TtsVoiceItem → TtsFormValues
unfolding resolve_voice
detail_defaults d voices = record {
  text = d.text;
  voice_id = resolve_voice d.voice_id voices;
  temperature = d.temperature;
  exaggeration = d.exaggeration;
  cfg_weight = d.cfg_weight;
}

-- `statusLabel`
unfoldable pub status_label : Status → String
status_label completed = "Completed"
status_label failed = "Failed"
status_label processing = "Processing"
status_label _ = "Queued"

-- What `TextToSpeechDetailView` shows: the form with its values, the status, whether it says that
-- the audio will appear, and the address of the preview.
pub data DetailView : Type 0 where
  loading : DetailView
  shown : TtsFormValues → String → Bool → Option String → DetailView

-- The query of the audio's address: its data, and whether it failed.
unfoldable pub detail_view :
    String → Option GenerationDetail → List TtsVoiceItem → Bool → Option String × Bool → DetailView
unfolding detail_defaults status_label
detail_view generation_id none voices voices_loading audio = loading
detail_view generation_id (some d) voices voices_loading (src, failed_src) =
    if voices_loading || is_empty generation_id
    then loading
    else shown (detail_defaults d voices) (status_label d.status) (is_active d.status) (
        if not (is_empty (trim d.s3_object_key)) && not (absent src) && not failed_src
        then src
        else none)

-- The voice that `VoiceSelector` shows: one that is offered, or the name of one that is missing.
pub data Current : Type 0 where
  offered : TtsVoiceItem → Current
  unavailable : String → Current
  nothing : Current

unfoldable pub current_voice : String → List TtsVoiceItem → Current
current_voice voice_id voices = elim (find_voice voice_id voices) [
  | some v ↦ offered v
  | none ↦
      if not (is_empty voice_id)
      then unavailable voice_id
      else elim voices [ [] ↦ nothing | v ∷ vs ↦ offered v ]
]

-- `handleGenerate` of the dashboard's `TextInputPanel`: the path and the parameters gone to.
unfoldable pub handle_generate : String → Option (String × SearchParams)
handle_generate text =
    if is_empty (trim text) then none else some ("/text-to-speech", ("text", trim text) ∷ [])
