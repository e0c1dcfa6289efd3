-- ===== src/TextToSpeech/Form.antt =====
-- The form that generates speech: web/src/modules/text-to-speech/components/text-to-speech-form.tsx,
-- with `useGenerateSpeechMutation` of hooks/use-generations.ts. The voice and the generation service
-- are parameters, and so is `toLowerCase`. The sliders' numbers are hundredths.
pub mod Lookups
pub mod Submission
use Prim.Native.Char.{code}
use Prim.Native.String
use go_grpc_microservices.Prelude.{
  ℕ, String, Bool, true, false, ◌||◌, Option, none, some, List, [], ◌∷◌, nat_eq, ◌==◌, suc,
  if◌then◌else◌,
}
use go_grpc_microservices.Async.{
  Settled, resolved, rejected, Async, resolve, throw, ◌>>=◌, ◌>>◌, throw_if,
}
use go_grpc_microservices.Text.{is_empty, absent, trim}
pub use go_grpc_microservices.Toasts.{Toast, success, error}

-- What the form reads of a `VoiceItem`.
pub record TtsVoiceItem : Type 0 where
  pub id : String
  pub name : String
  pub language : String

pub record TtsFormValues : Type 0 where
  pub text : String
  pub voice_id : String
  pub temperature : ℕ
  pub exaggeration : ℕ
  pub cfg_weight : ℕ

abbrev pub default_tts_values : TtsFormValues
default_tts_values = record {
  text = "";
  voice_id = "";
  temperature = 60;
  exaggeration = 35;
  cfg_weight = 35;
}

-- `ttsFormSchema`: the numbers are numbers by their type here.
unfoldable pub is_valid : TtsFormValues → Bool
is_valid v = if is_empty v.text then false else if is_empty v.voice_id then false else true

-- `split(/[-_]/)[0]`
abbrev pub is_separator : ℕ → Bool
is_separator c = nat_eq c b'-' || nat_eq c b'_'

unfoldable pub first_segment : String → String
first_segment String.[] = ""
first_segment (String.◌∷◌ c s) =
    let rest = first_segment s in if is_separator (code c) then "" else String.◌∷◌ c rest

-- `GenerateSpeechInput`
pub record GenerateSpeechInput : Type 0 where
  pub text : String
  pub voice_id : String
  pub voice_name : String
  pub voice_key : String
  pub language_id : String
  pub temperature : ℕ
  pub exaggeration : ℕ
  pub cfg_weight : ℕ

-- What the services answer: an error's message, or the field that is read.
pub data Reply : Type 0 where
  failed : String → Reply
  answer : String → Reply

-- The requests sent and the messages shown, newest first; how often the generations were
-- invalidated; and the generation whose page was gone to.
pub record Client : Type 0 where
  pub looked_up : List String
  pub sent : List GenerateSpeechInput
  pub invalidated : ℕ
  pub toasts : List Toast
  pub route : Option String

-- `allVoices.find((voice) => voice.id === value.voiceId)`
abbrev pub find_voice : String → List TtsVoiceItem → Option TtsVoiceItem
find_voice id [] = none
find_voice id (v ∷ vs) = if v.id == id then some v else find_voice id vs

module _ (lower : String → String) (playback : String → Reply)
    (generate : GenerateSpeechInput → Reply) where
  -- `resolveLanguageID`
  unfoldable pub resolve_language_id : String → String
  unfolding first_segment
  resolve_language_id language =
      let normalized = lower (trim language) in
      if is_empty normalized
      then "en"
      else if is_empty (first_segment normalized)
      then "en"
      else first_segment normalized

  abbrev settle : Reply → Settled String
  settle (failed e) = rejected e
  settle (answer a) = resolved a

  -- `voiceRpcClient.getVoicePlaybackUrl`, and its field `providerKey`
  unfoldable pub look_up : String → Async Client String
  look_up id s = (settle (playback id), record s { looked_up = id ∷ s.looked_up })

  -- `queryClient.invalidateQueries({ queryKey: ["generations"] })`
  unfoldable pub invalidate : Async Client (Unit {0})
  invalidate s = (resolved tt, record s { invalidated = suc s.invalidated })

  -- `useGenerateSpeechMutation`: the id of the generation
  unfoldable pub mutate : Option String → GenerateSpeechInput → Async Client String
  unfolding invalidate
  mutate token input = throw_if (absent token) "Unauthorized" (
      (λ s. (settle (generate input), record s { sent = input ∷ s.sent }))
      >>= (λ id. invalidate >> resolve id))

  abbrev pub input_of : TtsFormValues → TtsVoiceItem → String → GenerateSpeechInput
  input_of value voice key = record {
    text = trim value.text;
    voice_id = voice.id;
    voice_name = voice.name;
    voice_key = key;
    language_id = resolve_language_id voice.language;
    temperature = value.temperature;
    exaggeration = value.exaggeration;
    cfg_weight = value.cfg_weight;
  }

  abbrev show_success : Async Client (Unit {0})
  show_success s =
      (resolved tt, record s { toasts = success "Audio generated successfully!" ∷ s.toasts })

  -- `router.push`
  abbrev go_to : String → Async Client (Unit {0})
  go_to id s = (resolved tt, record s { route = some id })

  -- The body of the `try`
  unfoldable pub generate_with :
      Option String → TtsFormValues → TtsVoiceItem → Async Client (Unit {0})
  unfolding look_up mutate invalidate
  generate_with token value voice = look_up voice.id >>= (λ provider_key.
      throw_if (is_empty (trim provider_key)) "Failed to resolve voice provider key" (
        mutate token (input_of value voice (trim provider_key))
        >>= (λ id. show_success >> (invalidate >> go_to id))))

  unfoldable pub try_generate :
      Option String → List TtsVoiceItem → TtsFormValues → Async Client (Unit {0})
  unfolding generate_with
  try_generate token voices value = elim (find_voice value.voice_id voices) [
    | none ↦ throw "Please select a valid voice"
    | some voice ↦ generate_with token value voice
  ]

  -- The `catch`
  abbrev report : Settled (Unit {0}) × Client → Client
  report (resolved _, s) = s
  report (rejected message, s) = record s {
    toasts =
        error (if message == "SUBSCRIPTION_REQUIRED" then "Subscription required" else message)
        ∷ s.toasts;
  }

  -- `form.handleSubmit`: nothing happens to a form that is not valid; else `onSubmit`.
  unfoldable pub submit : Option String → List TtsVoiceItem → TtsFormValues → Client → Client
  unfolding is_valid try_generate
  submit token voices value s =
      if is_valid value then report (try_generate token voices value s) else s
