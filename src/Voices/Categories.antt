-- ===== src/Voices/Categories.antt =====
-- Categories and variants: web/src/modules/voices/data/voice-categories.ts, and the two functions
-- `mapCategory` and the function `mapVariant` of web/src/modules/voices/hooks.
use go_grpc_microservices.Prelude.{
  ℕ, ◌≡◌, ◌≢◌, refl, String, Option, none, some, List, [], ◌∷◌, ◌||◌, ◌==◌, if◌then◌else◌, All, map,
}

-- The enumerations of gen/pb/voice_pb.ts, and their numbers.
pub data VoiceCategory : Type 0 where
  unspecified general narration character : VoiceCategory

pub data VoiceVariant : Type 0 where
  unspecified male female neutral : VoiceVariant

abbrev variant_number : VoiceVariant → ℕ
variant_number VoiceVariant.unspecified = 0
variant_number male = 1
variant_number female = 2
variant_number neutral = 3

-- `VOICE_CATEGORY_LABELS`
abbrev voice_category_labels : List (String × String)
voice_category_labels =
    ("AUDIOBOOK", "Audiobook")
    ∷ ("CONVERSATIONAL", "Conversational")
    ∷ ("CUSTOMER_SERVICE", "Customer Service")
    ∷ ("GENERAL", "General")
    ∷ ("NARRATIVE", "Narrative")
    ∷ ("CHARACTERS", "Characters")
    ∷ ("MEDITATION", "Meditation")
    ∷ ("MOTIVATIONAL", "Motivational")
    ∷ ("PODCAST", "Podcast")
    ∷ ("ADVERTISING", "Advertising")
    ∷ ("VOICEOVER", "Voiceover")
    ∷ ("CORPORATE", "Corporate")
    ∷ []

-- `VOICE_VARIANT_LABELS`
abbrev voice_variant_labels : List (String × String)
voice_variant_labels = ("MALE", "Male") ∷ ("FEMALE", "Female") ∷ ("NEUTRAL", "Neutral") ∷ []

-- A property of an object, `undefined` if it has none of the name
abbrev label_in : String → List (String × String) → Option String
label_in name [] = none
label_in name ((k, label) ∷ es) =
    let rest = label_in name es in if k == name then some label else rest

-- `getVoiceCategoryLabel`, `getVoiceVariantLabel`
voice_category_label : Option String → Option String
voice_category_label none = label_in "GENERAL" voice_category_labels
voice_category_label (some category) = label_in category voice_category_labels

voice_variant_label : Option String → Option String
voice_variant_label none = label_in "NEUTRAL" voice_variant_labels
voice_variant_label (some variant) = label_in variant voice_variant_labels

-- `VOICE_CATEGORIES`, `VOICE_VARIANTS`: what the form for a new voice offers.
abbrev voice_categories : List String
voice_categories = map (λ e. e.0) voice_category_labels

abbrev voice_variants : List String
voice_variants = map (λ e. e.0) voice_variant_labels

-- `PROTO_VOICE_CATEGORY_LABELS`, and `getProtoVoiceCategoryLabel`
unfoldable pub proto_voice_category_label : Option VoiceCategory → String
proto_voice_category_label none = "Unspecified"
proto_voice_category_label (some VoiceCategory.unspecified) = "Unspecified"
proto_voice_category_label (some general) = "General"
proto_voice_category_label (some narration) = "Narration"
proto_voice_category_label (some character) = "Character"

proto_voice_variant_label : Option VoiceVariant → String
proto_voice_variant_label none = "Unspecified"
proto_voice_variant_label (some VoiceVariant.unspecified) = "Unspecified"
proto_voice_variant_label (some male) = "Male"
proto_voice_variant_label (some female) = "Female"
proto_voice_variant_label (some neutral) = "Neutral"

-- `mapCategory` of use-create-voice.ts
unfoldable pub map_category : String → VoiceCategory
map_category category =
    if category == "NARRATION"
    then narration
    else if category == "CHARACTER" || category == "CHARACTERS"
    then character
    else general

-- `mapVariant` of use-create-voice.ts
unfoldable pub map_variant : String → ℕ
map_variant variant =
    if variant == "MALE"
    then 1
    else if variant == "FEMALE"
    then 2
    else if variant == "NEUTRAL"
    then 3
    else 3

-- The three categories that the form for an existing voice offers, and `mapCategory` of
-- use-update-voice.ts.
pub data EditCategory : Type 0 where
  general_option narration_option character_option : EditCategory

unfoldable pub map_edit_category : EditCategory → VoiceCategory
map_edit_category narration_option = narration
map_edit_category character_option = character
map_edit_category general_option = general

-- `openEditDialog` of voice-card.tsx: the option that a voice's category selects
unfoldable pub edit_category : VoiceCategory → EditCategory
edit_category narration = narration_option
edit_category character = character_option
edit_category _ = general_option

-- Opening the edit dialog and saving it unchanged keeps the category of a voice, except that an
-- unspecified one becomes general.
map_edit_category-edit_category :
    (c : VoiceCategory) → c ≢ VoiceCategory.unspecified → map_edit_category (edit_category c) ≡ c
unfolding map_edit_category edit_category
map_edit_category-edit_category VoiceCategory.unspecified h = absurd (h refl)
map_edit_category-edit_category general h = refl
map_edit_category-edit_category narration h = refl
map_edit_category-edit_category character h = refl

-- Of the twelve categories that the form for a new voice offers none is sent to the service as a
-- narration, and only "CHARACTERS" as a character: all others, "NARRATIVE" among them, are sent
-- as general.
map_category_offered :
    All
      (λ category.
        (map_category category ≢ narration)
        × (map_category category ≡ (if category == "CHARACTERS" then character else general)))
      voice_categories
unfolding map_category
map_category_offered = (
  (λ e. cc, refl),
  (
    (λ e. cc, refl),
    (
      (λ e. cc, refl),
      (
        (λ e. cc, refl),
        (
          (λ e. cc, refl),
          (
            (λ e. cc, refl),
            (
              (λ e. cc, refl),
              (
                (λ e. cc, refl),
                ((λ e. cc, refl), ((λ e. cc, refl), ((λ e. cc, refl), ((λ e. cc, refl), tt)))),
              ),
            ),
          ),
        ),
      ),
    ),
  ),
)

-- Everything that the form offers has its label, which is the one of its entry; and so has what is
-- missing.
labels_offered :
    (map (λ e. voice_category_label (some e.0)) voice_category_labels
      ≡ map (λ e. some e.1) voice_category_labels)
    × (map (λ e. voice_variant_label (some e.0)) voice_variant_labels
        ≡ map (λ e. some e.1) voice_variant_labels)
    × (voice_category_label none ≡ some "General")
    × (voice_variant_label none ≡ some "Neutral")
unfolding voice_category_label voice_variant_label
labels_offered = (refl, refl, refl, refl)

-- Every variant that the form offers is sent under its own number, and its label is the one shown
-- for that number.
map_variant_offered :
    All
      (λ e.
        (v : VoiceVariant) × (map_variant e.0 ≡ variant_number v)
        × (proto_voice_variant_label (some v) ≡ e.1))
      voice_variant_labels
unfolding map_variant proto_voice_variant_label
map_variant_offered = ((male, refl, refl), ((female, refl, refl), ((neutral, refl, refl), tt)))
