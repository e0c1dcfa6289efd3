-- ===== src/Voices/Mutations.antt =====
-- The mutations of web/src/modules/voices/hooks: use-create-voice.ts, use-update-voice.ts and
-- use-delete-voice.ts. The voice service is a parameter: what it makes of a request.
use go_grpc_microservices.Prelude.{
  ℕ, ◌≡◌, ◌≢◌, ◌↔◌, String, Bool, true, false, ◌||◌, Option, none, some, List, [], ◌∷◌,
  if◌then◌else◌, arith,
}
use go_grpc_microservices.Async.{
  Settled, is_resolved, resolved, rejected, Async, ◌>>=◌, resolve, throw, throw_if,
}
use go_grpc_microservices.Text.{is_empty, absent, trim}
use go_grpc_microservices.Voices.Categories.{
  VoiceCategory, EditCategory, map_category, map_variant, map_edit_category,
}

pub record CreateVoiceInput : Type 0 where
  pub name : String
  pub description : Option String
  pub language : String
  pub variant : String
  pub audio_data : List ℕ
  pub content_type : Option String
  pub category : String

pub record UpdateVoiceInput : Type 0 where
  pub id : String
  pub name : String
  pub description : Option String
  pub language : String
  pub category : EditCategory

-- The requests of the voice service.
pub data VoiceRequest : Type 0 where
  create_voice : String → String → VoiceCategory → String → ℕ → List ℕ → String → VoiceRequest
  update_voice : String → String → String → VoiceCategory → String → VoiceRequest
  delete_voice : String → VoiceRequest

pub record Voice : Type 0 where
  pub id : String
  pub name : String

-- Its answers: an exception, the field `voice` of a response, or the field `success`.
pub data VoiceReply : Type 0 where
  failed : String → VoiceReply
  voice : Option Voice → VoiceReply
  success : Bool → VoiceReply

-- The requests sent, newest first; whether the list of voices was invalidated; the ids whose
-- provider key was removed from the cache.
pub record Client : Type 0 where
  pub sent : List VoiceRequest
  pub invalidated : Bool
  pub forgotten : List String

abbrev pub text_or : Option String → String → String
text_or none d = d
text_or (some s) d = s

abbrev no_bytes : List ℕ → Bool
no_bytes [] = true
no_bytes (b ∷ bs) = false

module _ (service : VoiceRequest → VoiceReply) where
  unfoldable pub call : VoiceRequest → Async Client VoiceReply
  call q s =
      (elim (service q) [ failed e ↦ rejected e | r ↦ resolved r ], record s { sent = q ∷ s.sent })

  -- `if (!response.voice) throw …; return response.voice`
  abbrev voice_of : String → VoiceReply → Async Client Voice
  voice_of e (voice (some v)) = resolve v
  voice_of e _ = throw e

  -- `if (!response.success) throw …; return response.success`
  abbrev success_of : VoiceReply → Async Client Bool
  success_of (success true) = resolve true
  success_of _ = throw "Delete failed"

  -- `onSuccess`
  unfoldable pub invalidate : {A : Type 0} → Settled A × Client → Settled A × Client
  invalidate (resolved a, s) = (resolved a, record s { invalidated = true })
  invalidate (rejected e, s) = (rejected e, s)

  unfoldable pub create_request : CreateVoiceInput → VoiceRequest
  create_request i =
      create_voice i.name (text_or i.description "") (map_category i.category) i.language
        (map_variant i.variant) i.audio_data (text_or i.content_type "audio/wav")

  -- `useCreateVoice`
  unfoldable pub create : Option String → CreateVoiceInput → Async Client Voice
  unfolding call invalidate
  create token i s = invalidate (
      throw_if (absent token) "Unauthorized"
        (throw_if (is_empty (trim i.name)) "Name is required" (
          throw_if (is_empty (trim i.language)) "Language is required" (
            throw_if (no_bytes i.audio_data) "Audio data is required"
              (call (create_request i) >>= voice_of "Failed to create voice"))))
        s)

  unfoldable pub update_request : UpdateVoiceInput → VoiceRequest
  update_request i =
      update_voice i.id i.name (text_or i.description "") (map_edit_category i.category) i.language

  -- `useUpdateVoice`
  unfoldable pub update : Option String → UpdateVoiceInput → Async Client Voice
  unfolding call invalidate
  update token i s = invalidate (
      throw_if (absent token) "Unauthorized"
        (throw_if (is_empty (trim i.id)) "Voice id is required" (
          throw_if (is_empty (trim i.name)) "Name is required" (
            throw_if (is_empty (trim i.language)) "Language is required"
              (call (update_request i) >>= voice_of "Update failed"))))
        s)

  -- `onSettled`, after success and failure alike
  unfoldable pub forget : {A : Type 0} → String → Settled A × Client → Settled A × Client
  forget id (r, s) = (r, if is_empty id then s else record s { forgotten = id ∷ s.forgotten })

  -- `useDeleteVoice`
  unfoldable pub delete : Option String → String → Async Client Bool
  unfolding call invalidate forget
  delete token id s = forget id (
      invalidate (
        throw_if (absent token) "Unauthorized"
          (throw_if (is_empty (trim id)) "Voice id is required"
            (call (delete_voice id) >>= success_of))
          s))

  -- A voice is created exactly by a user with a token, with a name and a language that are not
  -- blank and with audio, and if the service returns one to the form's request. If a check fails
  -- nothing is sent, else exactly that request is; and the list of voices is invalidated exactly
  -- by success, if it was not before.
  pub create_iff :
      (token : Option String) (i : CreateVoiceInput) (s : Client) (v : Voice)
      → (((create token i s).0 ≡ resolved v) ↔ (
          (absent token ≡ false)
          × (is_empty (trim i.name) ≡ false)
          × (is_empty (trim i.language) ≡ false)
          × (i.audio_data ≢ [])
          × (service (create_request i) ≡ voice (some v))))
        × ((create token i s).1.sent ≡ (
            if absent token
              || is_empty (trim i.name)
              || is_empty (trim i.language)
              || no_bytes i.audio_data
            then s.sent
            else create_request i ∷ s.sent))
        × ((create token i s).1.invalidated ≡ (s.invalidated || is_resolved (create token i s).0))
  unfolding create
  create_iff token i s v = ((λ h. ground arith, λ h. ground arith), ground arith, ground arith)

  -- An edit is saved exactly for a user with a token, if the id, the name and the language are not
  -- blank and the service returns the voice.
  update_iff :
      (token : Option String) (i : UpdateVoiceInput) (s : Client) (v : Voice)
      → ((update token i s).0 ≡ resolved v) ↔ (
          (absent token ≡ false)
          × (is_empty (trim i.id) ≡ false)
          × (is_empty (trim i.name) ≡ false)
          × (is_empty (trim i.language) ≡ false)
          × (service (update_request i) ≡ voice (some v)))
  unfolding update
  update_iff token i s v = (λ h. ground arith, λ h. ground arith)

  -- A deletion succeeds exactly for a user with a token, if the id is not blank and the service
  -- says so.
  delete_iff :
      (token : Option String) (id : String) (s : Client)
      → ((delete token id s).0 ≡ resolved true) ↔ (
          (absent token ≡ false)
          × (is_empty (trim id) ≡ false)
          × (service (delete_voice id) ≡ success true))
  unfolding delete
  delete_iff token id s = (λ h. ground arith, λ h. ground arith)

  -- The list of voices is invalidated exactly by the mutations that succeed, if it was not before;
  -- and a deletion, whether it succeeds or fails, makes the browser forget the provider key of the
  -- id, unless that is empty.
  delete_settled :
      (token : Option String) (id : String) (s : Client)
      → ((delete token id s).1.invalidated ≡ (s.invalidated || is_resolved (delete token id s).0))
        × ((delete token id s).1.forgotten
            ≡ (if is_empty id then s.forgotten else id ∷ s.forgotten))
  unfolding delete
  delete_settled token id s = (ground arith, ground arith)
