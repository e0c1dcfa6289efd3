-- ===== src/TextToSpeech/CacheSize.antt =====
-- The size of the audio cache as a page shows it: the hook `useAudioCache` of
-- web/src/modules/text-to-speech/hooks/use-audio-cache.ts, over the session of the cache.
pub mod Bytes
use go_grpc_microservices.Prelude.{ℕ, ◌≡◌, String, Bool, true, false, leb, arith}
use go_grpc_microservices.Async.{resolved, rejected}
use go_grpc_microservices.ObjectStore.{ObjectStore}
use go_grpc_microservices.AudioCache.Entry.{entry_key, entry_voice_id, total, sum_from}
use go_grpc_microservices.AudioCache.Session.{
  Browser, Session, get_audio_cache_size, clear_audio_cache, remove_cached_audio, with_db, init_db,
  write,
}
use go_grpc_microservices.AudioCache.Session.Laws.{IsServing}

module _ (blobs : ObjectStore entry_key) (keys : ObjectStore entry_voice_id) where
  pub record CacheView : Type 0 where
    pub session : Session blobs keys
    pub cache_size : ℕ
    pub is_loading : Bool
    pub is_clearing : Bool

  -- `loadCacheSize`, which runs once when the component is shown
  load_cache_size : Browser → CacheView → CacheView
  load_cache_size b v =
      let r = get_audio_cache_size blobs keys b v.session in
      elim r.0 [
        | resolved size ↦ record v { session = r.1; cache_size = size; is_loading = false }
        | rejected e ↦ record v { session = r.1; is_loading = false }
      ]

  -- `handleClearCache`, up to its call
  unfoldable pub begin_clear : CacheView → CacheView
  begin_clear v = record v { is_clearing = true }

  -- `handleClearCache`, from its call
  unfoldable pub finish_clear : Browser → CacheView → CacheView
  finish_clear b v =
      let r = clear_audio_cache blobs keys b v.session in
      elim r.0 [
        | resolved _ ↦ record v { session = r.1; cache_size = 0; is_clearing = false }
        | rejected e ↦ record v { session = r.1; is_clearing = false }
      ]

  -- `useRemoveCachedAudio`
  unfoldable pub remove_audio : Browser → String → CacheView → CacheView
  remove_audio b key v = record v { session = (remove_cached_audio blobs keys b key v.session).1 }

  -- If its requests succeed, clearing leaves nothing cached, the page shows the size 0, and so does
  -- a page that is loaded afterwards.
  finish_clear_lem :
      (b : Browser) (v : CacheView)
      → IsServing b
      → leb v.session.version 3 ≡ true
      → let w = finish_clear b (begin_clear v) in
        (total (blobs.get_all w.session.audio) ≡ 0)
        × (w.cache_size ≡ 0)
        × (w.is_clearing ≡ false)
        × ((load_cache_size b w).cache_size ≡ 0)
  unfolding finish_clear load_cache_size begin_clear clear_audio_cache get_audio_cache_size with_db
      init_db write total sum_from
  finish_clear_lem b v hb h = (
    ground (arith, blobs.get_all-clear v.session.audio),
    ground arith,
    ground arith,
    ground (arith, blobs.get_all-clear v.session.audio),
  )

  -- If the database cannot be opened, the page shows the size 0 after a clearing as well, although
  -- everything that was cached is still there.
  unopened_clear_shows_zero :
      (b : Browser) (v : CacheView)
      → b.window ≡ true
      → b.opens ≡ false
      → v.session.connected ≡ false
      → let w = finish_clear b (begin_clear v) in
        (w.cache_size ≡ 0) × (w.session.audio ≡ v.session.audio)
  unfolding finish_clear begin_clear clear_audio_cache with_db init_db
  unopened_clear_shows_zero b v hw ho hc = (ground arith, ground arith)
