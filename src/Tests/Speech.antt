-- ===== src/Tests/Speech.antt =====
-- The theorems on text to speech (web/src/modules/text-to-speech) at concrete inputs.
use go_grpc_microservices.Prelude.{
  ℕ, ◌≡◌, ◌⊎◌, refl, String, true, false, none, some, [], ◌∷◌, arith,
}
use go_grpc_microservices.Async.{Settled, resolved}
use go_grpc_microservices.Text.{trim, drop_while, trim_end, is_space}
use go_grpc_microservices.ObjectStore.{list_store, ObjectStore}
use go_grpc_microservices.AudioCache.Entry.{Blob, entry_key, entry_voice_id, blob_size}
use go_grpc_microservices.AudioCache.Schema.{complete}
use go_grpc_microservices.AudioCache.Session.{Browser}
use go_grpc_microservices.AudioFetch.{Page, thrown, body}
use go_grpc_microservices.AudioFetch.Serving.{blob_at}
use go_grpc_microservices.TextToSpeech.Form.{
  TtsVoiceItem, TtsFormValues, default_tts_values, GenerateSpeechInput, Reply, answer, Client,
  submit,
}
use go_grpc_microservices.TextToSpeech.Form.Submission.{
  IsUnfilled, IsFilled, Outcome, submit-Outcome,
}
use go_grpc_microservices.TextToSpeech.Generations.{
  generation_playback_url, generation_audio, is_http, GenerationDetail, queued, processing,
  completed, poll,
}
use go_grpc_microservices.TextToSpeech.Generations.Polling.{poll_terminates}
use go_grpc_microservices.TextToSpeech.Generations.Audio.{generation_audio_once}

abbrev ann : TtsVoiceItem
ann = record { id = "v1"; name = "Ann"; language = "en-US" }

abbrev values : TtsFormValues
values = record default_tts_values { text = " hi "; voice_id = "v1" }

abbrev lower : String → String
lower s = s

abbrev playback : String → Reply
playback id = answer "k"

abbrev generate : GenerateSpeechInput → Reply
generate input = answer "g1"

abbrev client : Client
client = record { looked_up = []; sent = []; invalidated = 0; toasts = []; route = none }

submit-Outcome_example :
    let t = submit lower playback generate (some "t") (ann ∷ []) values client in
    (IsUnfilled lower playback generate (some "t") (ann ∷ []) values × (t ≡ client))
    ⊎ (IsFilled lower playback generate (some "t") (ann ∷ []) values
        × Outcome lower playback generate (some "t") (ann ∷ []) values client t)
submit-Outcome_example = submit-Outcome lower playback generate (some "t") (ann ∷ []) values client

abbrev sign : String → Settled String
sign key = resolved "https://s3/a"

abbrev blobs : ObjectStore entry_key
blobs = list_store entry_key

abbrev keys : ObjectStore entry_voice_id
keys = list_store entry_voice_id

abbrev clip : Blob
clip = record { bytes = 7 ∷ 8 ∷ []; media = "audio/wav" }

abbrev serving : Browser
serving = record {
  window = true;
  opens = true;
  served = true;
  committed = true;
  listed = true;
  evicted = true;
  now = 9;
}

abbrev page : Page blobs keys
page = record {
  session = record {
    connected = false;
    version = 3;
    schema = complete;
    audio = ([], tt);
    providers = ([], tt);
  };
  urls = [];
  next_url = 0;
  requested = [];
}

generation_audio_once_example :
    let visit = generation_audio blobs keys sign serving serving (body clip) "a" page in
    let again = generation_audio blobs keys sign serving serving thrown "a" visit.1 in
    (visit.0 ≡ some (resolved 0))
    × (again.0 ≡ some (resolved visit.1.next_url))
    × (blob_at blobs keys visit.1.next_url again.1.urls ≡ some clip)
    × (again.1.requested ≡ "https://s3/a" ∷ [])
unfolding blob_size generation_playback_url is_http trim drop_while trim_end is_space
generation_audio_once_example =
    generation_audio_once blobs keys sign sign serving serving serving serving thrown "a"
      "https://s3/a" "https://s3/a" clip page refl refl (refl, refl, refl, refl, refl, refl)
      (refl, refl, refl, refl, refl, refl) (refl, refl, refl, refl, refl, refl) refl refl refl refl
      refl (omega arith) tt

abbrev job : GenerationDetail
job = record {
  status = queued;
  text = "hi";
  voice_id = "v1";
  voice_name = "Ann";
  s3_object_key = "";
  error_message = "";
  temperature = 60;
  exaggeration = 35;
  cfg_weight = 35;
}

abbrev done : GenerationDetail
done = record job { status = completed; s3_object_key = "a.wav" }

-- Queued, in process, completed; a fourth answer is not asked for.
poll_terminates_example :
    poll none (some job ∷ some (record job { status = processing }) ∷ some done ∷ none ∷ [])
    ≡ (some done, none ∷ [])
poll_terminates_example =
    poll_terminates none (job ∷ record job { status = processing } ∷ []) done (none ∷ [])
      (refl, (refl, tt)) refl

abbrev address : ℕ → String
address n = "blob:a"
