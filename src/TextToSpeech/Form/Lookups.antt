-- ===== src/TextToSpeech/Form/Lookups.antt =====
-- What a submission of the form looks up: the voice with an id, and its language id
-- (web/src/modules/text-to-speech/components/text-to-speech-form.tsx).
use Prim.Native.Char.{code}
use go_grpc_microservices.Prelude.{
  ◌≡◌, inl, inr, refl, ap, sym, ◌∙◌, String, true, false, none, some, List, [], ◌∷◌, ◌==◌, eq_iff,
  All, In, arith, if◌then◌else◌, Bool-cases,
}
use go_grpc_microservices.Text.{is_empty, trim, append, empty_text}
use go_grpc_microservices.TextToSpeech.Form.{
  TtsVoiceItem, is_separator, first_segment, GenerateSpeechInput, Reply, find_voice,
  resolve_language_id,
}

-- No code point of the text is a separator.
abbrev IsSegment : String → Type 0
IsSegment String.[] = Unit
IsSegment (String.◌∷◌ c s) = (is_separator (code c) ≡ false) × IsSegment s

-- It is empty or begins with a separator.
abbrev IsAtSeparator : String → Type 0
IsAtSeparator String.[] = Unit
IsAtSeparator (String.◌∷◌ c s) = is_separator (code c) ≡ true

abbrev IsFirstSegment : String → String → Type 0
IsFirstSegment s segment =
    (rest : String) × IsSegment segment × IsAtSeparator rest × (s ≡ append segment rest)

first_segment-IsFirstSegment : (s : String) → IsFirstSegment s (first_segment s)
unfolding first_segment
first_segment-IsFirstSegment String.[] = ("", tt, tt, refl)
first_segment-IsFirstSegment (String.◌∷◌ c s) = elim (Bool-cases (is_separator (code c))) [
  | inl e ↦ rw e (String.◌∷◌ c s, tt, e, refl)
  | inr e ↦
      let (rest, segment, at, same) = first_segment-IsFirstSegment s in
      rw e (rest, (e, segment), at, ap (λ t. String.◌∷◌ c t) same)
]

-- A voice with the id is offered.
abbrev pub IsOffered : String → List TtsVoiceItem → TtsVoiceItem → Type 0
IsOffered id voices voice = In voice voices × (voice.id ≡ id)

pub found-IsOffered :
    (id : String) (voices : List TtsVoiceItem) (voice : TtsVoiceItem)
    → find_voice id voices ≡ some voice
    → IsOffered id voices voice
found-IsOffered id [] voice e = absurd cc
found-IsOffered id (v ∷ vs) voice e = elim (Bool-cases (v.id == id)) [
  | inl q ↦
      let same : v ≡ voice = ground arith in
      (inl (sym same), ap (λ w. w.id) (sym same) ∙ ground (arith, eq_iff v.id id))
  | inr q ↦ let (i, same) = found-IsOffered id vs voice (ground arith) in (inr i, same)
]

pub not_found :
    (id : String) (voices : List TtsVoiceItem)
    → find_voice id voices ≡ none
    → All (λ v. (v.id == id) ≡ false) voices
not_found id [] e = tt
not_found id (v ∷ vs) e = elim (Bool-cases (v.id == id)) [
  | inl q ↦ absurd (ground arith)
  | inr q ↦ (q, not_found id vs (ground arith))
]

module _ (lower : String → String) where
  -- The part before the first separator of the trimmed language in lower case, or "en" if that
  -- part is empty.
  abbrev pub IsLanguageId : String → String → Type 0
  IsLanguageId language id =
      (segment : String) × IsFirstSegment (lower (trim language)) segment
      × (id ≡ (if is_empty segment then "en" else segment))

  pub resolve_language_id-IsLanguageId :
      (playback : String → Reply) (generate : GenerateSpeechInput → Reply) (language : String)
      → IsLanguageId language (resolve_language_id lower playback generate language)
  unfolding resolve_language_id first_segment
  resolve_language_id-IsLanguageId playback generate language =
      let normalized = lower (trim language) in
      let h = first_segment-IsFirstSegment normalized in
      elim (Bool-cases (is_empty normalized)) [
        | inl e ↦ ("", ("", tt, tt, empty_text normalized e), rw e refl)
        | inr e ↦ (first_segment normalized, h, rw e refl)
      ]
