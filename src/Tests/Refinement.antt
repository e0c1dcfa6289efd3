-- ===== src/Tests/Refinement.antt =====
-- The audio cache as a map that may lose entries, at concrete calls (AudioCache.Refinement).
use go_grpc_microservices.Prelude.{◌≡◌, refl, true, false, some, List, [], ◌∷◌, ◌⊎◌}
use go_grpc_microservices.ObjectStore.{ObjectStore, list_store}
use go_grpc_microservices.AudioCache.Entry.{
  Blob, entry_key, entry_voice_id, blob_size, recency, sum_from, eviction_order, insert_by_recency,
  normalize_entry_size,
}
use go_grpc_microservices.AudioCache.Schema.{complete}
use go_grpc_microservices.AudioCache.Eviction.{enforce_cache_cap, evict_from}
use go_grpc_microservices.AudioCache.Session.{
  Browser, Session, init_db, write, enforce, get_cached_audio, cache_audio, serve_entry, touch,
  remove_cached_audio, with_db,
}
use go_grpc_microservices.AudioCache.Session.Entries.{blob_of}
use go_grpc_microservices.AudioCache.LossyMap
use go_grpc_microservices.AudioCache.LossyMap.{Call, Trace, IsCached}
use go_grpc_microservices.AudioCache.Refinement.{
  call, outcomes, perform, perform-Trace, read-IsCached,
}

abbrev blobs : ObjectStore entry_key
blobs = list_store entry_key

abbrev keys : ObjectStore entry_voice_id
keys = list_store entry_voice_id

abbrev clip : Blob
clip = record { bytes = 7 ∷ 8 ∷ []; media = "audio/wav" }

abbrev serving : Browser
serving = record {
  window = true;
  opens = true;
  served = true;
  committed = true;
  listed = true;
  evicted = true;
  now = 9;
}

abbrev page : Session blobs keys
page = record {
  connected = false;
  version = 3;
  schema = complete;
  audio = ([], tt);
  providers = ([], tt);
}

abbrev calls : List (Browser × Call)
calls =
    (serving, LossyMap.write "a" clip)
    ∷ ((serving, LossyMap.write "b" clip) ∷ ((serving, LossyMap.remove "b") ∷ []))

read_a : (call blobs keys serving (LossyMap.read "a") (perform blobs keys calls page)).0 ≡ some clip
unfolding get_cached_audio cache_audio remove_cached_audio with_db init_db write enforce serve_entry
    touch enforce_cache_cap evict_from sum_from eviction_order insert_by_recency recency
    normalize_entry_size blob_size
read_a = refl

perform-Trace_example :
    Trace
      (blob_of blobs keys page)
      (outcomes blobs keys calls page)
      (blob_of blobs keys (perform blobs keys calls page))
perform-Trace_example = perform-Trace blobs keys calls page

read-IsCached_example :
    (blob_of blobs keys page "a" ≡ some clip) ⊎ IsCached "a" clip (outcomes blobs keys calls page)
read-IsCached_example = read-IsCached blobs keys calls serving "a" clip page read_a
