-- ===== src/Voices/CreateForm/Submission.antt =====
-- What a submission of the form for a new voice does
-- (web/src/modules/voices/components/voice-create-form.tsx).
use go_grpc_microservices.Prelude.{
  ◌≡◌, ◌⊎◌, String, Bool, true, Option, some, List, ◌∷◌, if◌then◌else◌,
}
use go_grpc_microservices.Toasts.{Toast}
use go_grpc_microservices.Voices.Mutations.{VoiceRequest, Voice, VoiceReply, voice}
use go_grpc_microservices.Voices.CreateForm.{default_values, VoiceCreateForm}
use go_grpc_microservices.Voices.CreateForm.Reasons.{IsIncomplete, IsSent, Fails}

module _ (service : VoiceRequest → VoiceReply) (token : Option String) (has_on_error : Bool) where
  abbrev IsCreated : VoiceCreateForm → VoiceCreateForm → Type 0
  IsCreated s t =
      (q : VoiceRequest) × (w : Voice) × IsSent service token s.values q
      × (service q ≡ voice (some w))
      × (t ≡ record s {
        values = default_values;
        client = record s.client { sent = q ∷ s.client.sent; invalidated = true };
        toasts = Toast.success "Voice created successfully!" ∷ s.toasts;
      })

  -- Nothing that was typed is lost, and the failure is told once.
  abbrev IsTold : VoiceCreateForm → VoiceCreateForm → Type 0
  IsTold s t =
      (message : String) × (sent : List VoiceRequest) × Fails service token s.values s.client.sent
        message sent
      × (t ≡ record s {
        client = record s.client { sent = sent };
        toasts = if has_on_error then s.toasts else Toast.error message ∷ s.toasts;
        errors = if has_on_error then message ∷ s.errors else s.errors;
      })

  abbrev pub Outcome : VoiceCreateForm → VoiceCreateForm → Type 0
  Outcome s t = IsCreated s t ⊎ (IsTold s t ⊎ (IsIncomplete s.values × (t ≡ s)))
