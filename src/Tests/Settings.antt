-- ===== src/Tests/Settings.antt =====
-- A form that is reset, and a cache that is cleared (TextToSpeech.Settings,
-- TextToSpeech.CacheSize).
use go_grpc_microservices.Prelude.{◌≡◌, refl, true, false, [], ◌∷◌}
use go_grpc_microservices.ObjectStore.{ObjectStore, list_store}
use go_grpc_microservices.AudioCache.Schema.{complete}
use go_grpc_microservices.AudioCache.Entry.{CacheEntry, entry_key, entry_voice_id}
use go_grpc_microservices.AudioCache.Session.{Browser, clear_audio_cache, with_db, init_db, write}
use go_grpc_microservices.TextToSpeech.Form.{TtsFormValues, default_tts_values}
use go_grpc_microservices.TextToSpeech.Settings.{handle_reset, set_field_value}
use go_grpc_microservices.TextToSpeech.CacheSize.{CacheView, begin_clear, finish_clear}

abbrev moved : TtsFormValues
moved = record {
  text = "Hello";
  voice_id = "v1";
  temperature = 190;
  exaggeration = 25;
  cfg_weight = 100;
}

moved_reset : handle_reset moved ≡ record default_tts_values { text = "Hello"; voice_id = "v1" }
unfolding handle_reset set_field_value
moved_reset = refl

abbrev blobs : ObjectStore entry_key
blobs = list_store entry_key

abbrev keys : ObjectStore entry_voice_id
keys = list_store entry_voice_id

abbrev entry : CacheEntry
entry = record {
  key = "a";
  blob = record { bytes = 7 ∷ 8 ∷ []; media = "audio/wav" };
  timestamp = 1;
  last_accessed = 1;
  size_bytes = 2;
}

abbrev serving : Browser
serving = record {
  window = true;
  opens = true;
  served = true;
  committed = true;
  listed = true;
  evicted = true;
  now = 9;
}

abbrev shown : CacheView blobs keys
shown = record {
  session = record {
    connected = false;
    version = 3;
    schema = complete;
    audio = (entry ∷ [], (refl, tt));
    providers = ([], tt);
  };
  cache_size = 2;
  is_loading = false;
  is_clearing = false;
}

cleared_size : (finish_clear blobs keys serving (begin_clear blobs keys shown)).cache_size ≡ 0
unfolding finish_clear begin_clear clear_audio_cache with_db init_db write
cleared_size = refl

-- The entry is still there.
unopened_size :
    let w =
      finish_clear blobs keys (record serving { opens = false }) (begin_clear blobs keys shown) in
    (w.cache_size ≡ 0) × (blobs.get_all w.session.audio ≡ entry ∷ [])
unfolding finish_clear begin_clear clear_audio_cache with_db init_db write
unopened_size = (refl, refl)
