-- ===== src/AudioCache/Session/Laws.antt =====
-- The functions of the audio cache as their callers see them: what is read after a write, and
-- which failures reach the caller.
use go_grpc_microservices.Prelude.{
  ◌≡◌, String, true, false, ◌&&◌, not, none, some, arith, leb, eq_refl, if◌then◌else◌,
}
use go_grpc_microservices.Async.{resolved, is_resolved}
use go_grpc_microservices.Text.{is_empty, trim, trim_of_is_empty}
use go_grpc_microservices.ObjectStore.{ObjectStore, get-delete}
use go_grpc_microservices.AudioCache.Entry.{
  Blob, VoiceProviderKeyEntry, entry_key, entry_voice_id, total, sum_from-total,
}
use go_grpc_microservices.AudioCache.Session.{
  Browser, Session, init_db, get_cached_audio, cache_audio, set_voice_provider_key,
  get_voice_provider_key, remove_voice_provider_key, clear_audio_cache, remove_cached_audio,
  get_audio_cache_size,
}

-- A browser in which every request succeeds.
abbrev pub IsServing : Browser → Type 0
IsServing b =
    (b.window ≡ true)
    × (b.opens ≡ true)
    × (b.served ≡ true)
    × (b.committed ≡ true)
    × (b.listed ≡ true)
    × (b.evicted ≡ true)

module _ (blobs : ObjectStore entry_key) (keys : ObjectStore entry_voice_id) where
  -- The functions that read or cache audio never reject, whatever the browser answers.
  pub cache_never_rejects :
      (b : Browser) (key value : String) (blob : Blob) (s : Session blobs keys)
      → (is_resolved (get_cached_audio blobs keys b key s).0 ≡ true)
        × (is_resolved (cache_audio blobs keys b key blob s).0 ≡ true)
        × (is_resolved (get_audio_cache_size blobs keys b s).0 ≡ true)
        × (is_resolved (get_voice_provider_key blobs keys b key s).0 ≡ true)
        × (is_resolved (set_voice_provider_key blobs keys b key value s).0 ≡ true)
  unfolding get_cached_audio cache_audio get_audio_cache_size get_voice_provider_key
      set_voice_provider_key
  cache_never_rejects b key value blob s =
      (ground arith, ground arith, ground arith, ground arith, ground arith)

  -- The functions that clear or remove settle with a rejection exactly when their request on an
  -- open database fails: their `catch` sees only a failure to open it.
  pub removal_rejects_iff :
      (b : Browser) (key : String) (s : Session blobs keys)
      → is_empty key ≡ false
      → let unserved = b.window && is_resolved (init_db blobs keys b s).0 && not b.served in
        (is_resolved (clear_audio_cache blobs keys b s).0 ≡ not unserved)
        × (is_resolved (remove_cached_audio blobs keys b key s).0 ≡ not unserved)
        × (is_resolved (remove_voice_provider_key blobs keys b key s).0 ≡ not unserved)
  unfolding clear_audio_cache remove_cached_audio remove_voice_provider_key
  removal_rejects_iff b key s h = (ground arith, ground arith, ground arith)

  -- A provider key that was stored under a voice id is read back, trimmed, unless it is blank;
  -- once the id is removed, nothing is read back.
  get_voice_provider_key-set :
      (b c : Browser) (voice_id provider_key : String) (s : Session blobs keys)
      → IsServing b
      → IsServing c
      → is_empty voice_id ≡ false
      → is_empty (trim provider_key) ≡ false
      → leb s.version 3 ≡ true
      → let written = (set_voice_provider_key blobs keys b voice_id provider_key s).1 in
        ((get_voice_provider_key blobs keys c voice_id written).0
          ≡ resolved (some (trim provider_key)))
        × ((get_voice_provider_key blobs keys c voice_id
              (remove_voice_provider_key blobs keys b voice_id written).1).0
            ≡ resolved none)
  unfolding get_voice_provider_key set_voice_provider_key remove_voice_provider_key
  get_voice_provider_key-set b c voice_id provider_key s hb hc h k v =
      let entry : VoiceProviderKeyEntry = record {
        voice_id = voice_id;
        provider_key = provider_key;
        updated_at = b.now;
      } in
      (
        ground (
          arith,
          keys.get-put s.providers entry voice_id,
          eq_refl voice_id,
          trim_of_is_empty provider_key,
        ),
        ground (
          arith,
          get-delete keys (keys.put s.providers entry) voice_id voice_id,
          eq_refl voice_id,
          trim_of_is_empty provider_key,
        ),
      )

  -- `getAudioCacheSize` is the sum of the normalized sizes of what is stored, and 0 where the
  -- database cannot be read.
  pub get_audio_cache_size_lem :
      (b : Browser) (s : Session blobs keys)
      → (get_audio_cache_size blobs keys b s).0
        ≡ resolved (
            if b.window && is_resolved (init_db blobs keys b s).0 && b.served
            then total (blobs.get_all s.audio)
            else 0)
  unfolding get_audio_cache_size
  get_audio_cache_size_lem b s = ground (arith, sum_from-total 0 (blobs.get_all s.audio))
