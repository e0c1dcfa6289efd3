-- ===== src/Tests/Library.antt =====
-- The theorems on the voice library (web/src/modules/voices) at concrete inputs.
use go_grpc_microservices.Prelude.{true, false, some, [], ◌∷◌}
use go_grpc_microservices.Async.{resolved}
use go_grpc_microservices.Voices.Mutations.{
  Voice, VoiceRequest, VoiceReply, voice, success, delete_voice, Client,
}
use go_grpc_microservices.Voices.CreateForm.{default_values, VoiceCreateForm}

abbrev saved : Voice
saved = record { id = "v1"; name = "Ann" }

abbrev service : VoiceRequest → VoiceReply
service (delete_voice id) = success true
service _ = voice (some saved)

abbrev client : Client
client = record { sent = []; invalidated = false; forgotten = [] }

abbrev form : VoiceCreateForm
form = record {
  values = record default_values {
    name = "Ann";
    file = some (record { media = ""; array_buffer = resolved (1 ∷ []) });
  };
  client = client;
  toasts = [];
  errors = [];
}
