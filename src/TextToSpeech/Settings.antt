-- ===== src/TextToSpeech/Settings.antt =====
-- The sliders of the settings, web/src/modules/text-to-speech/data/sliders.ts, and the button that
-- resets them (components/settings-panel-settings.tsx). Their numbers are hundredths.
use go_grpc_microservices.Prelude.{ℕ, ◌+◌, ◌*◌, ◌≤◌, ◌≡◌, refl, String, List, [], ◌∷◌, All, arith}
use go_grpc_microservices.TextToSpeech.Form.{TtsFormValues, default_tts_values}

pub data SliderId : Type 0 where
  temperature : SliderId
  exaggeration : SliderId
  cfg_weight : SliderId

pub record Slider : Type 0 where
  pub id : SliderId
  pub label : String
  pub left_label : String
  pub right_label : String
  pub min : ℕ
  pub max : ℕ
  pub step : ℕ
  pub default_value : ℕ

abbrev pub sliders : List Slider
sliders =
    record {
      id = temperature;
      label = "Creativity";
      left_label = "Consistent";
      right_label = "Expressive";
      min = 0;
      max = 200;
      step = 10;
      default_value = 60;
    }
    ∷ (record {
      id = exaggeration;
      label = "Exaggeration";
      left_label = "Natural";
      right_label = "Dramatic";
      min = 25;
      max = 200;
      step = 5;
      default_value = 35;
    }
        ∷ (record {
          id = cfg_weight;
          label = "CFG Weight";
          left_label = "Loose";
          right_label = "Guided";
          min = 20;
          max = 100;
          step = 5;
          default_value = 35;
        }
            ∷ []))

-- `form.setFieldValue`, for the field of a slider
unfoldable pub set_field_value : SliderId → ℕ → TtsFormValues → TtsFormValues
set_field_value temperature n v = record v { temperature = n }
set_field_value exaggeration n v = record v { exaggeration = n }
set_field_value cfg_weight n v = record v { cfg_weight = n }

abbrev reset_each : List Slider → TtsFormValues → TtsFormValues
reset_each [] v = v
reset_each (s ∷ ss) v = reset_each ss (set_field_value s.id s.default_value v)

-- `handleReset`
unfoldable pub handle_reset : TtsFormValues → TtsFormValues
handle_reset v = reset_each sliders v

-- A value that a slider can be moved to.
abbrev IsPosition : Slider → ℕ → Type 0
IsPosition s n = (k : ℕ) × (n ≡ s.min + k * s.step) × (n ≤ s.max)

-- A reset leaves the numbers of a fresh form, whatever they were, and keeps the text and the voice;
-- each default is a position of its slider.
handle_reset_lem :
    (v : TtsFormValues)
    → (handle_reset v ≡ record default_tts_values { text = v.text; voice_id = v.voice_id })
      × All (λ s. IsPosition s s.default_value) sliders
unfolding handle_reset set_field_value
handle_reset_lem v =
    (refl, ((6, refl, omega arith), ((2, refl, omega arith), ((3, refl, omega arith), tt))))
