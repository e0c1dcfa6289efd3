-- ===== src/TextToSpeech/Pages/Keyed.antt =====
-- The form of the page for new speech and its key, in `TextToSpeechView` of
-- web/src/modules/text-to-speech/views/text-to-speech-view.tsx: which voices are there changes
-- while the page is shown, and React mounts a form anew whose key is another.
use go_grpc_microservices.Prelude.{
  ◌≡◌, refl, String, false, Option, none, some, List, [], ◌∷◌, ◌==◌, eq_refl, All, Bool-cases, inl,
  inr, if◌then◌else◌,
}
use go_grpc_microservices.Text.{is_empty}
use go_grpc_microservices.TextToSpeech.Form.{TtsVoiceItem, TtsFormValues, default_tts_values}
use go_grpc_microservices.TextToSpeech.Pages.{
  InitialValues, SearchParams, new_defaults, resolve_voice, get_or, param,
}

-- A form on the page, with the key that it was mounted under.
pub record MountedForm : Type 0 where
  pub key : String
  pub values : TtsFormValues

-- `defaultValues.voiceId || "tts-form"`
form_key : TtsFormValues → String
form_key v = if is_empty v.voice_id then "tts-form" else v.voice_id

-- React, with a form of these default values: one that is there under the same key stays.
unfoldable pub mount : TtsFormValues → Option MountedForm → MountedForm
unfolding form_key
mount defaults none = record { key = form_key defaults; values = defaults }
mount defaults (some f) =
    if f.key == form_key defaults then f else record { key = form_key defaults; values = defaults }

module _ (initial : Option InitialValues) (params : SearchParams) where
  -- `TextToSpeechView`, each time the voices are others
  unfoldable pub render : List TtsVoiceItem → Option MountedForm → MountedForm
  unfolding new_defaults mount
  render voices f = mount (new_defaults initial params voices) f

  -- The voices change again and again.
  abbrev render_all : List (List TtsVoiceItem) → MountedForm → MountedForm
  render_all [] f = f
  render_all (voices ∷ more) f = render_all more (render voices (some f))

  -- Whatever the user filled in stays as long as the voices, changing as they may, leave the form
  -- with one and the same default voice.
  filled_in_kept :
      (first : List TtsVoiceItem) (changes : List (List TtsVoiceItem)) (filled_in : TtsFormValues)
      → All
          (λ voices.
            form_key (new_defaults initial params voices)
            ≡ form_key (new_defaults initial params first))
          changes
      → (render_all changes (record (render first none) { values = filled_in })).values ≡ filled_in
  unfolding render mount
  filled_in_kept first [] filled_in h = refl
  filled_in_kept first (voices ∷ more) filled_in h =
      rw (h.0, render_all, eq_refl (form_key (new_defaults initial params first)))
        (filled_in_kept first more filled_in h.1)

mount_other :
    (d e : TtsFormValues) (filled_in : TtsFormValues)
    → (form_key d == form_key e) ≡ false
    → (mount e (some (record (mount d none) { values = filled_in }))).values ≡ e
unfolding mount
mount_other d e filled_in h = rw h

resolve_none : (requested : String) → resolve_voice requested [] ≡ ""
unfolding resolve_voice
resolve_none requested = elim (Bool-cases (is_empty requested)) [ inl e ↦ rw e | inr e ↦ rw e ]

-- Without voices the form's key is the fallback.
form_key-none : (params : SearchParams) → form_key (new_defaults none params []) ≡ "tts-form"
unfolding form_key new_defaults
form_key-none params = rw (resolve_none (get_or "" (param "voiceId" params)))

form_key-some : (d : TtsFormValues) → is_empty d.voice_id ≡ false → form_key d ≡ d.voice_id
unfolding form_key
form_key-some d h = rw h

-- What the user fills in before the voices have come is lost when they come: without initial
-- values the page shows a form while there are no voices, and once there are some, and the default
-- voice has an id other than "tts-form", the form is mounted anew with the default values of a
-- fresh one, whatever the text, voice and numbers in it were.
pub filled_in_lost :
    (params : SearchParams) (filled_in : TtsFormValues) (voices : List TtsVoiceItem)
    → let id = (new_defaults none params voices).voice_id in
      is_empty id ≡ false
      → ("tts-form" == id) ≡ false
      → (render none params voices
          (some (record (render none params [] none) { values = filled_in }))).values
        ≡ record default_tts_values { voice_id = id }
unfolding render new_defaults
filled_in_lost params filled_in voices h e =
    let d = new_defaults none params voices in
    mount_other (new_defaults none params []) d filled_in
      (rw (form_key-none params) (rw (form_key-some d h) e))
