-- ===== src/TextToSpeech/Selector.antt =====
-- The selector of voices and the button that opens it on a small screen:
-- web/src/modules/text-to-speech/components/voice-selector.tsx and voice-selector-button.tsx, with
-- the voices of web/src/modules/text-to-speech/hooks/use-tts-voices.ts.
pub mod Items
use go_grpc_microservices.Prelude.{
  String, Bool, true, false, not, ◌&&◌, ◌||◌, Option, none, some, List, [], ◌∷◌, ◌++◌, ◌==◌, map,
  if◌then◌else◌,
}
use go_grpc_microservices.Text.{is_empty}
use go_grpc_microservices.Voices.Categories.{
  VoiceCategory, unspecified, general, narration, character, proto_voice_category_label,
}
use go_grpc_microservices.TextToSpeech.Form.{TtsVoiceItem}

-- What the selector reads of a `TTSVoiceItem`.
pub record ListedVoice : Type 0 where
  pub item : TtsVoiceItem
  pub category : VoiceCategory

-- `customVoices`, `systemVoices` and `allVoices` of `useTTSVoices`, from the data of its queries.
pub record TtsVoices : Type 0 where
  pub custom_voices : List ListedVoice
  pub system_voices : List ListedVoice
  pub all_voices : List ListedVoice

abbrev pub or_nothing : Option (List ListedVoice) → List ListedVoice
or_nothing none = []
or_nothing (some vs) = vs

unfoldable pub use_tts_voices : Option (List ListedVoice) → Option (List ListedVoice) → TtsVoices
use_tts_voices custom system = record {
  custom_voices = or_nothing custom;
  system_voices = or_nothing system;
  all_voices = or_nothing custom ++ or_nothing system;
}

-- `voices.find((v) => v.id === voiceId)`
abbrev pub find_listed : String → List ListedVoice → Option ListedVoice
find_listed id [] = none
find_listed id (v ∷ vs) = if v.item.id == id then some v else find_listed id vs

abbrev first_listed : List ListedVoice → Option ListedVoice
first_listed [] = none
first_listed (v ∷ vs) = some v

abbrev pub is_found : Option ListedVoice → Bool
is_found none = false
is_found (some v) = true

-- A voice as a text beside its avatar: its name, and the label of its category if it is shown.
pub record Entry : Type 0 where
  pub value : String
  pub name : String
  pub label : Option String

-- `hasMissingSelectedVoice`
unfoldable pub has_missing_selected_voice : String → List ListedVoice → Bool
has_missing_selected_voice voice_id voices =
    not (is_empty voice_id) && not (is_found (find_listed voice_id voices))

abbrev is_unspecified : VoiceCategory → Bool
is_unspecified unspecified = true
is_unspecified _ = false

-- `currentVoice` with `currentVoiceCategoryLabel`, as the trigger shows it: the selected voice, the
-- missing one, or the first
abbrev pub shown : ListedVoice → Entry
shown v = record {
  value = v.item.id;
  name = v.item.name;
  label =
      if is_unspecified v.category
      then none
      else some (proto_voice_category_label (some v.category));
}

abbrev pub missing : String → Entry
missing voice_id = record { value = voice_id; name = "Unavailable voice"; label = none }

unfoldable pub current_entry : String → List ListedVoice → Option Entry
unfolding has_missing_selected_voice
current_entry voice_id voices = elim (find_listed voice_id voices) [
  | some v ↦ some (shown v)
  | none ↦
      if has_missing_selected_voice voice_id voices
      then some (missing voice_id)
      else elim (first_listed voices) [ none ↦ none | some v ↦ some (shown v) ]
]

-- An item of a group, whose label is shown whatever the category
unfoldable pub listed_entry : ListedVoice → Entry
listed_entry v = record {
  value = v.item.id;
  name = v.item.name;
  label = some (proto_voice_category_label (some v.category));
}

-- What `SelectContent` holds.
pub data Part : Type 0 where
  group : String → List Entry → Part
  separator : Part

abbrev pub is_nonempty : List ListedVoice → Bool
is_nonempty [] = false
is_nonempty (v ∷ vs) = true

abbrev pub part_if : Bool → Part → List Part
part_if true p = p ∷ []
part_if false p = []

abbrev missing_part : Option Entry → List Part
missing_part none = []
missing_part (some e) = group "Selected Voice" (e ∷ []) ∷ []

-- The content of `VoiceSelector`
unfoldable pub select_content : String → TtsVoices → List Part
unfolding has_missing_selected_voice current_entry listed_entry
select_content voice_id vs =
    (if has_missing_selected_voice voice_id vs.all_voices
      then missing_part (current_entry voice_id vs.all_voices)
        ++ part_if (is_nonempty vs.custom_voices || is_nonempty vs.system_voices) separator
      else [])
    ++ (part_if (is_nonempty vs.custom_voices)
          (group "Team Voices" (map listed_entry vs.custom_voices))
        ++ (part_if (is_nonempty vs.custom_voices && is_nonempty vs.system_voices) separator
            ++ part_if (is_nonempty vs.system_voices)
                (group "Built-in Voices" (map listed_entry vs.system_voices))))

-- `buttonLabel` of `VoiceSelectorButton`
unfoldable pub button_label : String → List ListedVoice → String
button_label voice_id voices = elim (find_listed voice_id voices) [
  | some v ↦ v.item.name
  | none ↦ elim (first_listed voices) [ none ↦ "Select voice" | some v ↦ v.item.name ]
]
