-- ===== src/Tests/Preview.antt =====
-- The theorems on the preview of a voice
-- (web/src/modules/voices/components/voice-audio-preview.tsx) at concrete inputs.
use go_grpc_microservices.Prelude.{◌≡◌, refl, true, false, none, some, [], ◌∷◌, arith}
use go_grpc_microservices.Async.{resolved}
use go_grpc_microservices.ObjectStore.{list_store, ObjectStore}
use go_grpc_microservices.AudioCache.Entry.{Blob, blob_size, entry_key, entry_voice_id}
use go_grpc_microservices.AudioCache.Schema.{complete}
use go_grpc_microservices.AudioCache.Session.{Browser}
use go_grpc_microservices.AudioCache.Session.Laws.{IsServing}
use go_grpc_microservices.Text.{trim}
use go_grpc_microservices.AudioFetch.{body, thrown}
use go_grpc_microservices.AudioFetch.Serving.{blob_at}
use go_grpc_microservices.Voices.Playback.{
  VoicePlaybackResult, simple_client, get_voice_playback, store_answer,
}
use go_grpc_microservices.Voices.Preview.{Answers, Preview, begin_load, finish_load, load, leave}
use go_grpc_microservices.Voices.Preview.Lifetime.{here, and_then, clicks, loads, Holds, live_urls}
use go_grpc_microservices.Voices.Preview.Offline.{load_again}

abbrev blobs : ObjectStore entry_key
blobs = list_store entry_key

abbrev keys : ObjectStore entry_voice_id
keys = list_store entry_voice_id

abbrev clip : Blob
clip = record { bytes = 7 ∷ 8 ∷ []; media = "audio/wav" }

abbrev serving : Browser
serving = record {
  window = true;
  opens = true;
  served = true;
  committed = true;
  listed = true;
  evicted = true;
  now = 9;
}

abbrev playback : VoicePlaybackResult
playback = record { url = "u"; expires_at_unix = 1; provider_key = "k" }

abbrev online : Answers
online = record {
  key_read = serving;
  cached_read = serving;
  now = 5;
  playback = some playback;
  key_write = serving;
  audio_read = serving;
  audio_write = serving;
  reply = body clip;
}

abbrev offline : Answers
offline = record online { playback = none; reply = thrown }

abbrev preview : Preview blobs keys
preview = record {
  page = record {
    session = record {
      connected = false;
      version = 3;
      schema = complete;
      audio = ([], tt);
      providers = ([], tt);
    };
    urls = [];
    next_url = 0;
    requested = [];
  };
  query = none;
  object_url = none;
  is_loading_audio = false;
  is_fetching = false;
  played = [];
}

abbrev clicked : Preview blobs keys
clicked = begin_load blobs keys simple_client preview

abbrev loaded : Preview blobs keys
loaded = finish_load blobs keys simple_client online "v" clicked

live_urls_example :
    Holds blobs keys simple_client loaded.object_url loaded.page.urls
    × ((leave blobs keys simple_client loaded).page.urls ≡ [])
unfolding begin_load
live_urls_example =
    live_urls blobs keys simple_client preview
      (record { no_urls = refl; no_ref = refl; idle = refl })
      (and_then (and_then here clicks) (loads online "v" refl))

abbrev served : IsServing serving
served = (refl, refl, refl, refl, refl, refl)

trimmed : trim "k" ≡ "k"
unfolding trim
trimmed = refl

found : (get_voice_playback simple_client 5 (some playback) none).0 ≡ resolved playback
unfolding get_voice_playback store_answer trim
found = refl

load_again_example :
    let first = load blobs keys simple_client online "v" preview in
    let again = load blobs keys simple_client offline "v" first.1 in
    (first.0 ≡ resolved 0)
    × (again.0 ≡ resolved first.1.page.next_url)
    × (blob_at blobs keys 0 first.1.page.urls ≡ some clip)
    × (blob_at blobs keys first.1.page.next_url again.1.page.urls ≡ some clip)
    × (again.1.page.requested ≡ "u" ∷ [])
    × (again.1.query ≡ first.1.query)
unfolding blob_size
load_again_example =
    load_again blobs keys simple_client online offline "v" playback clip preview refl found
      (refl, trimmed) refl refl served served served served served refl refl refl (omega arith) tt
