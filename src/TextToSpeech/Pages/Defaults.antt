-- ===== src/TextToSpeech/Pages/Defaults.antt =====
-- What the forms of the pages are filled with (web/src/modules/text-to-speech/views).
use go_grpc_microservices.Prelude.{
  subst, sym, ◌≡◌, ◌≢◌, inl, inr, refl, String, true, false, not, ◌&&◌, Option, none, some, List,
  [], ◌∷◌, ◌==◌, eq_iff, eq_refl, arith, if◌then◌else◌, Bool-cases,
}
use go_grpc_microservices.Text.{is_empty, trim}
use go_grpc_microservices.TextToSpeech.Form.{TtsVoiceItem, find_voice}
use go_grpc_microservices.TextToSpeech.Generations.{GenerationDetail}
use go_grpc_microservices.TextToSpeech.Pages.{
  InitialValues, SearchParams, param, get_or, or_else, first_id, offers, resolve_voice,
  new_defaults, detail_defaults, offered, current_voice, handle_generate,
}

find_offered :
    (id : String) (voices : List TtsVoiceItem)
    → offers id voices ≡ true
    → (v : TtsVoiceItem) × (find_voice id voices ≡ some v) × (v.id ≡ id)
find_offered id [] h = cc
find_offered id (v ∷ vs) h = elim (Bool-cases (v.id == id)) [
  | inl e ↦ (v, rw e, ground (arith, eq_iff v.id id))
  | inr e ↦ let (w, found, same) = find_offered id vs (ground arith) in (w, rw e found, same)
]

-- A voice that is offered is chosen, if there is one at all: the requested one if it is among
-- them, else the first.
abbrev IsChosen : String → String → List TtsVoiceItem → Type 0
IsChosen requested id voices =
    (voice : TtsVoiceItem) × (find_voice id voices ≡ some voice)
    × (current_voice id voices ≡ offered voice)
    × (if not (is_empty requested) && offers requested voices
        then voice.id ≡ requested
        else id ≡ first_id voices)

resolve_voice_requested :
    (requested : String) (voices : List TtsVoiceItem)
    → (not (is_empty requested) && offers requested voices) ≡ true
    → resolve_voice requested voices ≡ requested
unfolding resolve_voice
resolve_voice_requested requested voices e = rw e

resolve_voice_first :
    (requested : String) (voices : List TtsVoiceItem)
    → (not (is_empty requested) && offers requested voices) ≡ false
    → resolve_voice requested voices ≡ first_id voices
unfolding resolve_voice
resolve_voice_first requested voices e = rw e

current_found :
    (id : String) (voices : List TtsVoiceItem) (v : TtsVoiceItem)
    → find_voice id voices ≡ some v
    → current_voice id voices ≡ offered v
unfolding current_voice
current_found id voices v e = ground arith

offers_requested :
    (requested : String) (voices : List TtsVoiceItem)
    → (not (is_empty requested) && offers requested voices) ≡ true
    → offers requested voices ≡ true
offers_requested requested voices e = ground arith

IsChosen-requested :
    (requested : String) (voices : List TtsVoiceItem)
    → (not (is_empty requested) && offers requested voices) ≡ true
    → IsChosen requested requested voices
IsChosen-requested requested voices e =
    let (w, found, same) = find_offered requested voices (offers_requested requested voices e) in
    (w, found, current_found requested voices w found, rw e same)

IsChosen-first :
    (requested : String) (v : TtsVoiceItem) (vs : List TtsVoiceItem)
    → (not (is_empty requested) && offers requested (v ∷ vs)) ≡ false
    → IsChosen requested v.id (v ∷ vs)
IsChosen-first requested v vs e =
    let found : find_voice v.id (v ∷ vs) ≡ some v = rw (eq_refl v.id) in
    (v, found, current_found v.id (v ∷ vs) v found, rw e)

resolve_voice-IsChosen :
    (requested : String) (voices : List TtsVoiceItem)
    → voices ≢ []
    → IsChosen requested (resolve_voice requested voices) voices
resolve_voice-IsChosen requested [] h = absurd (h refl)
resolve_voice-IsChosen requested (v ∷ vs) h =
    elim (Bool-cases (not (is_empty requested) && offers requested (v ∷ vs))) [
      | inl e ↦
          subst (λ id. IsChosen requested id (v ∷ vs))
            (sym (resolve_voice_requested requested (v ∷ vs) e))
            (IsChosen-requested requested (v ∷ vs) e)
      | inr e ↦
          subst (λ id. IsChosen requested id (v ∷ vs))
            (sym (resolve_voice_first requested (v ∷ vs) e)) (IsChosen-first requested v vs e)
    ]

-- The voice that a new form asks for: that of its initial values, else that of the address.
abbrev requested_voice : Option InitialValues → SearchParams → String
requested_voice none params = get_or "" (param "voiceId" params)
requested_voice (some i) params = get_or "" (or_else i.voice_id (param "voiceId" params))

-- If any voice is offered, the forms of both pages are filled with one, which the selector shows
-- as such and a submission finds: the one that was asked for, by the address, by the initial
-- values or by the generation that is shown, if it is among them, and else the first of them.
defaults-IsChosen :
    (initial : Option InitialValues) (params : SearchParams) (d : GenerationDetail)
    (voices : List TtsVoiceItem)
    → voices ≢ []
    → IsChosen (requested_voice initial params) (new_defaults initial params voices).voice_id voices
      × IsChosen d.voice_id (detail_defaults d voices).voice_id voices
unfolding new_defaults detail_defaults
defaults-IsChosen none params d voices h =
    (resolve_voice-IsChosen _ voices h, resolve_voice-IsChosen d.voice_id voices h)
defaults-IsChosen (some i) params d voices h =
    (resolve_voice-IsChosen _ voices h, resolve_voice-IsChosen d.voice_id voices h)

-- The text that is typed on the dashboard is lost: it is a parameter of the address that
-- "Generate speech" goes to, but the form of that page, which has no initial values, starts
-- without text.
dashboard_text_lost :
    (text path : String) (params : SearchParams) (voices : List TtsVoiceItem)
    → handle_generate text ≡ some (path, params)
    → (param "text" params ≡ some (trim text))
      × (is_empty (trim text) ≡ false)
      × ((new_defaults none params voices).text ≡ "")
unfolding handle_generate new_defaults
dashboard_text_lost text path params voices h = (ground arith, ground arith, refl)
