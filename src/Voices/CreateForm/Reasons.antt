-- ===== src/Voices/CreateForm/Reasons.antt =====
-- When a submission of the form for a new voice sends its request, and why it fails
-- (web/src/modules/voices/components/voice-create-form.tsx).
use go_grpc_microservices.Prelude.{
  ℕ, ◌≡◌, ◌≢◌, ◌⊎◌, inl, inr, refl, String, Bool, true, false, Option, none, some, List, [], ◌∷◌,
  arith, if◌then◌else◌, Bool-cases, Option-cases,
}
use go_grpc_microservices.Async.{Settled, resolved, rejected}
use go_grpc_microservices.Text.{is_empty, absent, trim, empty_text}
use go_grpc_microservices.Voices.Categories.{map_category, map_variant}
use go_grpc_microservices.Voices.Mutations.{
  VoiceRequest, create_voice, Voice, VoiceReply, failed, voice, success, Client, call, invalidate,
  create, create_request,
}
use go_grpc_microservices.Voices.CreateForm.{File, FormValues, is_complete, create_input}

-- A field that must be filled in is empty, or no file was chosen.
abbrev pub IsIncomplete : FormValues → Type 0
IsIncomplete v =
    (is_empty v.name ≡ true)
    ⊎ ((is_empty v.category ≡ true)
        ⊎ ((is_empty v.language ≡ true) ⊎ ((is_empty v.variant ≡ true) ⊎ (v.file ≡ none))))

-- The file that was chosen.
abbrev pub IsChosen : FormValues → File → Type 0
IsChosen v file =
    (v.file ≡ some file)
    × (is_empty v.name ≡ false)
    × (is_empty v.category ≡ false)
    × (is_empty v.language ≡ false)
    × (is_empty v.variant ≡ false)

pub complete-cases :
    (v : FormValues)
    → (IsIncomplete v × (is_complete v ≡ false))
      ⊎ ((file : File) × IsChosen v file × (is_complete v ≡ true))
unfolding is_complete
complete-cases v = elim (Bool-cases (is_empty v.name)) [
  | inl e ↦ inl (inl e, ground arith)
  | inr n ↦ elim (Bool-cases (is_empty v.category)) [
    | inl e ↦ inl (inr (inl e), ground arith)
    | inr c ↦ elim (Bool-cases (is_empty v.language)) [
      | inl e ↦ inl (inr (inr (inl e)), ground arith)
      | inr l ↦ elim (Bool-cases (is_empty v.variant)) [
        | inl e ↦ inl (inr (inr (inr (inl e))), ground arith)
        | inr w ↦ elim (Option-cases v.file) [
          | inl e ↦ inl (inr (inr (inr (inr e))), ground arith)
          | inr (file, e) ↦ inr (file, (e, n, c, l, w), ground arith)
        ]
      ]
    ]
  ]
]

-- The bytes of the file that was chosen.
abbrev IsRead : FormValues → File → List ℕ → Type 0
IsRead v file audio_data = IsChosen v file × (file.array_buffer ≡ resolved audio_data)

module _ (service : VoiceRequest → VoiceReply) (token : Option String) where
  -- The request for a voice of these values, and the conditions under which it is sent.
  abbrev pub IsSent : FormValues → VoiceRequest → Type 0
  IsSent v q =
      (file : File) × (audio_data : List ℕ) × IsRead v file audio_data
      × (absent token ≡ false)
      × (is_empty (trim v.name) ≡ false)
      × (is_empty (trim v.language) ≡ false)
      × (audio_data ≢ [])
      × (q
          ≡ create_voice v.name v.description (map_category v.category) v.language
              (map_variant v.variant) audio_data
              (if is_empty file.media then "audio/wav" else file.media))

  -- Why a submission fails: with which message, and with which requests sent in all, of those
  -- that were sent before.
  pub data Fails (v : FormValues) (before : List VoiceRequest)
      : String → List VoiceRequest → Type 0 where
    unreadable :
        (file : File) (message : String)
        → IsChosen v file
        → file.array_buffer ≡ rejected message
        → Fails v before message before
    signed_out :
        (file : File) (audio_data : List ℕ)
        → IsRead v file audio_data
        → absent token ≡ true
        → Fails v before "Unauthorized" before
    unnamed :
        (file : File) (audio_data : List ℕ)
        → IsRead v file audio_data
        → absent token ≡ false
        → is_empty (trim v.name) ≡ true
        → Fails v before "Name is required" before
    without_language :
        (file : File) (audio_data : List ℕ)
        → IsRead v file audio_data
        → absent token ≡ false
        → is_empty (trim v.name) ≡ false
        → is_empty (trim v.language) ≡ true
        → Fails v before "Language is required" before
    silent :
        (file : File)
        → IsRead v file []
        → absent token ≡ false
        → is_empty (trim v.name) ≡ false
        → is_empty (trim v.language) ≡ false
        → Fails v before "Audio data is required" before
    refused :
        (q : VoiceRequest) (message : String)
        → IsSent v q
        → service q ≡ failed message
        → Fails v before message (q ∷ before)
    without_voice :
        (q : VoiceRequest)
        → IsSent v q
        → (service q ≡ voice none) ⊎ ((done : Bool) × (service q ≡ success done))
        → Fails v before "Failed to create voice" (q ∷ before)

  -- How the calls of the `try` end.
  abbrev pub IsEnd : FormValues → Client → Settled Voice × Client → Type 0
  IsEnd v c r =
      ((q : VoiceRequest) × (w : Voice) × IsSent v q
        × (service q ≡ voice (some w))
        × (r ≡ (resolved w, record c { sent = q ∷ c.sent; invalidated = true })))
      ⊎ ((message : String) × (sent : List VoiceRequest) × Fails v c.sent message sent
          × (r ≡ (rejected message, record c { sent = sent })))

  Reply-cases :
      (r : VoiceReply)
      → ((w : Voice) × (r ≡ voice (some w)))
        ⊎ (((message : String) × (r ≡ failed message))
            ⊎ ((r ≡ voice none) ⊎ ((done : Bool) × (r ≡ success done))))
  Reply-cases (failed message) = inr (inl (message, refl))
  Reply-cases (voice none) = inr (inr (inl refl))
  Reply-cases (voice (some w)) = inl (w, refl)
  Reply-cases (success done) = inr (inr (inr (done, refl)))

  abbrev request_of : FormValues → File → List ℕ → VoiceRequest
  request_of v file audio_data =
      create_voice v.name v.description (map_category v.category) v.language (map_variant v.variant)
        audio_data (if is_empty file.media then "audio/wav" else file.media)

  create_request_lem :
      (v : FormValues) (file : File) (audio_data : List ℕ)
      → create_request service (create_input v file audio_data) ≡ request_of v file audio_data
  unfolding create_request
  create_request_lem v file audio_data = elim (Bool-cases (is_empty v.description)) [
    | inl e ↦ rw (e, empty_text v.description e) refl
    | inr e ↦ rw e refl
  ]

  sent-IsEnd :
      (v : FormValues) (file : File) (b : ℕ) (bs : List ℕ) (c : Client)
      → IsRead v file (b ∷ bs)
      → absent token ≡ false
      → is_empty (trim v.name) ≡ false
      → is_empty (trim v.language) ≡ false
      → IsEnd v c (create service token (create_input v file (b ∷ bs)) c)
  unfolding create call invalidate
  sent-IsEnd v file b bs c read t n l =
      let q = request_of v file (b ∷ bs) in
      let same = create_request_lem v file (b ∷ bs) in
      let is_sent : IsSent v q = (file, b ∷ bs, read, t, n, l, (λ e. cc), refl) in
      elim (Reply-cases (service q)) [
        | inl (w, e) ↦ inl (q, w, is_sent, e, rw (t, n, l, same, e) refl)
        | inr (inl (message, e)) ↦
            inr (message, q ∷ c.sent, refused q message is_sent e, rw (t, n, l, same, e) refl)
        | inr (inr (inl e)) ↦ inr (
          "Failed to create voice",
          q ∷ c.sent,
          without_voice q is_sent (inl e),
          rw (t, n, l, same, e) refl,
        )
        | inr (inr (inr (done, e))) ↦ inr (
          "Failed to create voice",
          q ∷ c.sent,
          without_voice q is_sent (inr (done, e)),
          rw (t, n, l, same, e) refl,
        )
      ]

  guarded-IsEnd :
      (v : FormValues) (file : File) (audio_data : List ℕ) (c : Client)
      → IsRead v file audio_data
      → absent token ≡ false
      → is_empty (trim v.name) ≡ false
      → is_empty (trim v.language) ≡ false
      → IsEnd v c (create service token (create_input v file audio_data) c)
  unfolding create
  guarded-IsEnd v file [] c read t n l =
      inr ("Audio data is required", c.sent, silent file read t n l, ground arith)
  guarded-IsEnd v file (b ∷ bs) c read t n l = sent-IsEnd v file b bs c read t n l

  pub read-IsEnd :
      (v : FormValues) (file : File) (audio_data : List ℕ) (c : Client)
      → IsRead v file audio_data
      → IsEnd v c (create service token (create_input v file audio_data) c)
  unfolding create
  read-IsEnd v file audio_data c read = elim (Bool-cases (absent token)) [
    | inl t ↦
        inr ("Unauthorized", c.sent, signed_out file audio_data read t, rw (t, invalidate) refl)
    | inr t ↦ elim (Bool-cases (is_empty (trim v.name))) [
      | inl n ↦ inr ("Name is required", c.sent, unnamed file audio_data read t n, ground arith)
      | inr n ↦ elim (Bool-cases (is_empty (trim v.language))) [
        | inl l ↦ inr (
          "Language is required",
          c.sent,
          without_language file audio_data read t n l,
          ground arith,
        )
        | inr l ↦ guarded-IsEnd v file audio_data c read t n l
      ]
    ]
  ]
