-- ===== src/Tests/Cache.antt =====
-- The theorems on the audio cache (web/src/lib/audio-cache.ts) at concrete inputs.
use go_grpc_microservices.Prelude.{◌*◌, ◌≤◌, ◌≡◌, refl, true, false, some, [], ◌∷◌, arith}
use go_grpc_microservices.Async.{resolved, is_resolved}
use go_grpc_microservices.ObjectStore.{list_store, ObjectStore}
use go_grpc_microservices.AudioCache.Entry.{
  Blob, CacheEntry, entry_key, entry_voice_id, recency, total, normalize_entry_size, blob_size,
  sum_from, eviction_order, insert_by_recency,
}
use go_grpc_microservices.AudioCache.Eviction.{cache_cap_bytes, evict_from, enforce_cache_cap}
use go_grpc_microservices.AudioCache.Eviction.Guarantees.{
  enforce_cache_cap-le-cap, enforce_cache_cap_oldest_first,
}
use go_grpc_microservices.AudioCache.Session.{
  Browser, Session, init_db, get_cached_audio, cache_audio, remove_voice_provider_key,
  clear_audio_cache, remove_cached_audio,
}
use go_grpc_microservices.AudioCache.Schema.{Schema, complete, upgrade, upgrade-complete}
use go_grpc_microservices.AudioCache.Session.Laws.{removal_rejects_iff}
use go_grpc_microservices.AudioCache.Session.Entries.{get_cached_audio-cache}

abbrev blobs : ObjectStore entry_key
blobs = list_store entry_key

abbrev keys : ObjectStore entry_voice_id
keys = list_store entry_voice_id

abbrev clip : Blob
clip = record { bytes = 7 ∷ 8 ∷ []; media = "audio/wav" }

abbrev old_entry : CacheEntry
old_entry = record {
  key = "a";
  blob = clip;
  timestamp = 1;
  last_accessed = 1;
  size_bytes = 150 * 1024 * 1024;
}

abbrev new_entry : CacheEntry
new_entry = record {
  key = "b";
  blob = clip;
  timestamp = 1;
  last_accessed = 2;
  size_bytes = 100 * 1024 * 1024;
}

-- 250 MiB, the newer entry first
abbrev full : blobs.Contents
full = (new_entry ∷ old_entry ∷ [], (refl, (refl, tt)))

abbrev serving : Browser
serving = record {
  window = true;
  opens = true;
  served = true;
  committed = true;
  listed = true;
  evicted = true;
  now = 9;
}

abbrev failing : Browser
failing = record serving { served = false }

abbrev session : Session blobs keys
session = record {
  connected = false;
  version = 1;
  schema = record {
    audio_blobs = some (record { timestamp = true; last_accessed = false });
    voice_provider_keys = false;
  };
  audio = full;
  providers = ([], tt);
}

enforce_cache_cap-le-cap_example :
    ((enforce_cache_cap blobs true true full).0 ≡ resolved tt)
    × (total (blobs.get_all (enforce_cache_cap blobs true true full).1) ≤ cache_cap_bytes)
enforce_cache_cap-le-cap_example = enforce_cache_cap-le-cap blobs full

-- the older of the two is evicted
after_enforcing : (enforce_cache_cap blobs true true full).1.0 ≡ new_entry ∷ []
unfolding enforce_cache_cap evict_from sum_from eviction_order insert_by_recency recency
    normalize_entry_size
after_enforcing = refl

enforce_cache_cap_oldest_first_example : recency old_entry ≤ recency new_entry
unfolding enforce_cache_cap evict_from sum_from eviction_order insert_by_recency recency
    normalize_entry_size
enforce_cache_cap_oldest_first_example =
    enforce_cache_cap_oldest_first blobs full true true old_entry new_entry refl refl refl refl

get_cached_audio-cache_example :
    (get_cached_audio blobs keys serving "c" (cache_audio blobs keys serving "c" clip session).1).0
    ≡ resolved (some clip)
unfolding blob_size recency
get_cached_audio-cache_example =
    get_cached_audio-cache blobs keys serving serving "c" clip session
      (refl, refl, refl, refl, refl, refl) (refl, refl, refl, refl, refl, refl) refl refl
      (omega arith) (omega arith, (omega arith, tt))

removal_rejects_iff_example :
    (is_resolved (clear_audio_cache blobs keys failing session).0 ≡ false)
    × (is_resolved (remove_cached_audio blobs keys failing "a" session).0 ≡ false)
    × (is_resolved (remove_voice_provider_key blobs keys failing "a" session).0 ≡ false)
unfolding init_db
removal_rejects_iff_example = removal_rejects_iff blobs keys failing "a" session refl

-- What version 1 left: the audio store with its first index.
abbrev version_1 : Schema
version_1 = record {
  audio_blobs = some (record { timestamp = true; last_accessed = false });
  voice_provider_keys = false;
}

upgrade-complete_example : upgrade 1 version_1 ≡ complete
upgrade-complete_example =
    upgrade-complete 1 version_1 (λ indexes e. (ground arith, λ at_least. absurd (omega arith)))
