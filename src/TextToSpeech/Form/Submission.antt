-- ===== src/TextToSpeech/Form/Submission.antt =====
-- What a submission of the form sends and shows
-- (web/src/modules/text-to-speech/components/text-to-speech-form.tsx).

use go_grpc_microservices.Prelude.{
  suc, ◌≡◌, ◌⊎◌, inl, inr, refl, String, true, false, Option, some, List, ◌∷◌, ◌==◌, All, arith,
  if◌then◌else◌, Bool-cases, Option-cases,
}
use go_grpc_microservices.Text.{is_empty, absent, trim}
use go_grpc_microservices.TextToSpeech.Form.{
  TtsVoiceItem, TtsFormValues, is_valid, GenerateSpeechInput, Reply, failed, answer, success, error,
  Client, find_voice, resolve_language_id, look_up, mutate, invalidate, generate_with, try_generate,
  submit,
}
use go_grpc_microservices.TextToSpeech.Form.Lookups.{
  IsOffered, found-IsOffered, not_found, IsLanguageId, resolve_language_id-IsLanguageId,
}

Reply-cases : (r : Reply) → ((e : String) × (r ≡ failed e)) ⊎ ((a : String) × (r ≡ answer a))
Reply-cases (failed e) = inl (e, refl)
Reply-cases (answer a) = inr (a, refl)

module _ (lower : String → String) (playback : String → Reply)
    (generate : GenerateSpeechInput → Reply) where
  module _ (token : Option String) (voices : List TtsVoiceItem) (value : TtsFormValues) where
    -- The request for a voice and its provider key.
    abbrev IsInput : TtsVoiceItem → String → GenerateSpeechInput → Type 0
    IsInput voice key input =
        (id : String) × IsLanguageId lower voice.language id
        × (input ≡ record {
          text = trim value.text;
          voice_id = voice.id;
          voice_name = voice.name;
          voice_key = trim key;
          language_id = id;
          temperature = value.temperature;
          exaggeration = value.exaggeration;
          cfg_weight = value.cfg_weight;
        })

    -- The conditions under which a submission comes to ask for the voice's provider key, has one
    -- that is not blank, and sends its request.
    abbrev IsKeyed : TtsVoiceItem → String → Type 0
    IsKeyed voice key =
        IsOffered value.voice_id voices voice
        × (playback voice.id ≡ answer key)
        × (is_empty (trim key) ≡ false)

    abbrev IsSent : TtsVoiceItem → GenerateSpeechInput → Type 0
    IsSent voice input =
        (key : String) × IsKeyed voice key × (absent token ≡ false) × IsInput voice key input

    -- Why a submission fails: with which message, the voices whose key was asked for, and the
    -- requests that were sent.
    pub data Fails (s : Client) : String → List String → List GenerateSpeechInput → Type 0 where
      not_offered :
          All (λ v. (v.id == value.voice_id) ≡ false) voices
          → Fails s "Please select a valid voice" s.looked_up s.sent
      no_address :
          (voice : TtsVoiceItem) (message : String)
          → IsOffered value.voice_id voices voice
          → playback voice.id ≡ failed message
          → Fails s message (voice.id ∷ s.looked_up) s.sent
      blank_key :
          (voice : TtsVoiceItem) (key : String)
          → IsOffered value.voice_id voices voice
          → playback voice.id ≡ answer key
          → is_empty (trim key) ≡ true
          → Fails s "Failed to resolve voice provider key" (voice.id ∷ s.looked_up) s.sent
      signed_out :
          (voice : TtsVoiceItem) (key : String)
          → IsKeyed voice key
          → absent token ≡ true
          → Fails s "Unauthorized" (voice.id ∷ s.looked_up) s.sent
      refused :
          (voice : TtsVoiceItem) (input : GenerateSpeechInput) (message : String)
          → IsSent voice input
          → generate input ≡ failed message
          → Fails s message (voice.id ∷ s.looked_up) (input ∷ s.sent)

    -- Speech was made, and all that was left of it.
    abbrev IsGenerated : Client → Client → Type 0
    IsGenerated s t =
        (id : String) × (voice : TtsVoiceItem) × (input : GenerateSpeechInput) × IsSent voice input
        × (generate input ≡ answer id)
        × (t ≡ record s {
          looked_up = voice.id ∷ s.looked_up;
          sent = input ∷ s.sent;
          invalidated = suc (suc s.invalidated);
          toasts = success "Audio generated successfully!" ∷ s.toasts;
          route = some id;
        })

    -- One message tells why it failed, and nothing else is left but what was asked.
    abbrev IsReported : Client → Client → Type 0
    IsReported s t =
        (message : String) × (looked_up : List String) × (sent : List GenerateSpeechInput) × Fails s
          message looked_up sent
        × (t ≡ record s {
          looked_up = looked_up;
          sent = sent;
          toasts =
              error
                (if message == "SUBSCRIPTION_REQUIRED" then "Subscription required" else message)
              ∷ s.toasts;
        })

    abbrev pub Outcome : Client → Client → Type 0
    Outcome s t = IsGenerated s t ⊎ IsReported s t

    -- The request that is sent for a voice and its provider key.
    abbrev sent_for : TtsVoiceItem → String → GenerateSpeechInput
    sent_for voice key = record {
      text = trim value.text;
      voice_id = voice.id;
      voice_name = voice.name;
      voice_key = trim key;
      language_id = resolve_language_id lower playback generate voice.language;
      temperature = value.temperature;
      exaggeration = value.exaggeration;
      cfg_weight = value.cfg_weight;
    }

    keyed-Outcome :
        (voice : TtsVoiceItem) (key : String) (s : Client)
        → is_valid value ≡ true
        → find_voice value.voice_id voices ≡ some voice
        → playback voice.id ≡ answer key
        → is_empty (trim key) ≡ false
        → Outcome s (submit lower playback generate token voices value s)
    unfolding submit try_generate generate_with look_up mutate invalidate
    keyed-Outcome voice key s ok found looked_up not_blank =
        let offered = found-IsOffered value.voice_id voices voice found in
        let keyed : IsKeyed voice key = (offered, looked_up, not_blank) in
        let asked = voice.id ∷ s.looked_up in
        let input = sent_for voice key in
        elim (Bool-cases (absent token)) [
          | inl out ↦
              inr ("Unauthorized", asked, s.sent, signed_out voice key keyed out, ground arith)
          | inr signed_in ↦
              let language =
                resolve_language_id-IsLanguageId lower playback generate voice.language in
              let is_sent : IsSent voice input =
                (key, keyed, signed_in, (input.language_id, language, refl)) in
              elim (Reply-cases (generate input)) [
                | inl (e, failing) ↦
                    inr (
                      e,
                      asked,
                      input ∷ s.sent,
                      refused voice input e is_sent failing,
                      ground arith,
                    )
                | inr (id, made) ↦ inl (id, voice, input, is_sent, made, ground arith)
              ]
        ]

    found-Outcome :
        (voice : TtsVoiceItem) (s : Client)
        → is_valid value ≡ true
        → find_voice value.voice_id voices ≡ some voice
        → Outcome s (submit lower playback generate token voices value s)
    unfolding submit try_generate generate_with look_up
    found-Outcome voice s ok found =
        let offered = found-IsOffered value.voice_id voices voice found in
        let asked = voice.id ∷ s.looked_up in
        elim (Reply-cases (playback voice.id)) [
          | inl (e, failing) ↦
              inr (e, asked, s.sent, no_address voice e offered failing, ground arith)
          | inr (key, looked_up) ↦ elim (Bool-cases (is_empty (trim key))) [
            | inl blank ↦ inr (
              "Failed to resolve voice provider key",
              asked,
              s.sent,
              blank_key voice key offered looked_up blank,
              ground arith,
            )
            | inr not_blank ↦ keyed-Outcome voice key s ok found looked_up not_blank
          ]
        ]

    -- The fields that must be filled in.
    abbrev pub IsFilled : Type 0
    IsFilled = (is_empty value.text ≡ false) × (is_empty value.voice_id ≡ false)

    abbrev pub IsUnfilled : Type 0
    IsUnfilled = (is_empty value.text ≡ true) ⊎ (is_empty value.voice_id ≡ true)

    valid-cases : (IsUnfilled × (is_valid value ≡ false)) ⊎ (IsFilled × (is_valid value ≡ true))
    unfolding is_valid
    valid-cases = elim (Bool-cases (is_empty value.text)) [
      | inl t ↦ inl (inl t, ground arith)
      | inr t ↦ elim (Bool-cases (is_empty value.voice_id)) [
        | inl v ↦ inl (inr v, ground arith)
        | inr v ↦ inr ((t, v), ground arith)
      ]
    ]

    -- A form without a text or without a voice is left alone. Any other ends in one of two ways.
    -- Either speech was made: the voice is one that is offered, its provider key was found and is
    -- not blank, the user has a token, and the service took the one request that was sent. It has
    -- the trimmed text and key, the voice's id and name, the form's three numbers, and the part of
    -- the voice's language before its first dash or underscore, in lower case, or "en" if that is
    -- empty. One message says so, and the page of the generation is gone to. Or it failed, for the
    -- first of these reasons that there was: one message tells that reason, the page stays, and
    -- nothing is sent but what comes before it.
    pub submit-Outcome :
        (s : Client)
        → let t = submit lower playback generate token voices value s in
          (IsUnfilled × (t ≡ s)) ⊎ (IsFilled × Outcome s t)
    unfolding submit try_generate
    submit-Outcome s = elim valid-cases [
      | inl (unfilled, off) ↦ inl (unfilled, ground arith)
      | inr (filled, ok) ↦ elim (Option-cases (find_voice value.voice_id voices)) [
        | inl e ↦ inr (
          filled,
          inr (
            "Please select a valid voice",
            s.looked_up,
            s.sent,
            not_offered (not_found value.voice_id voices e),
            ground arith,
          ),
        )
        | inr (voice, found) ↦ inr (filled, found-Outcome voice s ok found)
      ]
    ]
