-- ===== src/AudioCache/Session.antt =====
-- The exported functions of web/src/lib/audio-cache.ts, over a session of the page: the database
-- and the module variable `dbInstance`. A promise that the code returns from inside `try` without
-- `await` rejects past the `catch`; an awaited one is caught.
pub mod Laws
pub mod Entries
use go_grpc_microservices.Prelude.{
  ℕ, String, Bool, true, false, ◌&&◌, ◌||◌, not, Option, none, some, ltb, leb, nat_eq,
  if◌then◌else◌,
}
use go_grpc_microservices.Async.{
  Settled, resolved, rejected, Async, resolve, throw, ◌>>=◌, ◌>>◌, try_catch,
}
use go_grpc_microservices.Text.{is_empty, trim}
use go_grpc_microservices.ObjectStore.{ObjectStore}
use go_grpc_microservices.AudioCache.Schema.{Schema, upgrade, db_version}
use go_grpc_microservices.AudioCache.Entry.{
  Blob, CacheEntry, VoiceProviderKeyEntry, entry_key, entry_voice_id, blob_size,
  normalize_entry_size, sum_from,
}
use go_grpc_microservices.AudioCache.Eviction.{enforce_cache_cap}

-- What the browser answers during one call.
pub record Browser : Type 0 where
  -- `typeof window !== "undefined"`
  pub window : Bool
  -- `indexedDB.open` succeeds
  pub opens : Bool
  -- the request on the store succeeds
  pub served : Bool
  -- its transaction commits
  pub committed : Bool
  -- `enforceCacheCap`: its `getAll` succeeds, and its deleting transaction commits
  pub listed : Bool
  pub evicted : Bool
  -- `Date.now()`
  pub now : ℕ

module _ (blobs : ObjectStore entry_key) (keys : ObjectStore entry_voice_id) where
  pub record Session : Type 0 where
    -- `dbInstance !== null`
    pub connected : Bool
    pub version : ℕ
    pub schema : Schema
    pub audio : blobs.Contents
    pub providers : keys.Contents

  -- `initDB`. The browser refuses to open a database of a later version, and calls the upgrade
  -- handler for one of an earlier version.
  unfoldable pub init_db : Browser → Async Session (Unit {0})
  init_db b s =
      if s.connected
      then (resolved tt, s)
      else if b.opens && leb s.version db_version
      then (
        resolved tt,
        record s {
          connected = true;
          version = db_version;
          schema = if ltb s.version db_version then upgrade s.version s.schema else s.schema;
        },
      )
      else (rejected "open failed", s)

  -- A request in a transaction that writes if both succeed.
  unfoldable pub write : Browser → (Session → Session) → Async Session (Unit {0})
  write b f s =
      if b.served
      then (resolved tt, if b.committed then f s else s)
      else (rejected "request failed", s)

  -- `{ ...entry, timestamp: …, lastAccessed: Date.now(), sizeBytes: … }`
  unfoldable pub touch : ℕ → CacheEntry → CacheEntry
  touch now e = record e {
    timestamp = if nat_eq e.timestamp 0 then now else e.timestamp;
    last_accessed = now;
    size_bytes = normalize_entry_size e;
  }

  -- `request.onsuccess` of `getCachedAudio`
  unfoldable pub serve_entry : Browser → Option CacheEntry → Async Session (Option Blob)
  unfolding touch
  serve_entry b none s = (resolved none, s)
  serve_entry b (some e) s = (
    resolved (some e.blob),
    if b.committed then record s { audio = blobs.put s.audio (touch b.now e) } else s,
  )

  -- `getCachedAudio`
  unfoldable pub get_cached_audio : Browser → String → Async Session (Option Blob)
  unfolding init_db serve_entry
  get_cached_audio b key =
      if is_empty key || not b.window
      then resolve none
      else try_catch
          (do
            init_db b
            λ s. if b.served then serve_entry b (blobs.get s.audio key) s else (resolved none, s))
          (λ _. resolve none)

  -- `enforceCacheCap(db)` on the session's audio store
  unfoldable pub enforce : Browser → Async Session (Unit {0})
  enforce b s =
      let (r, audio) = enforce_cache_cap blobs b.listed b.evicted s.audio in
      (r, record s { audio = audio })

  abbrev pub fresh_entry : String → Blob → ℕ → CacheEntry
  fresh_entry key blob now = record {
    key = key;
    blob = blob;
    timestamp = now;
    last_accessed = now;
    size_bytes = blob_size blob;
  }

  -- `cacheAudio`
  unfoldable pub cache_audio : Browser → String → Blob → Async Session (Unit {0})
  unfolding init_db write
  cache_audio b key blob =
      if is_empty key || not b.window
      then resolve tt
      else try_catch
          (do
            init_db b
            write b (λ s. record s { audio = blobs.put s.audio (fresh_entry key blob b.now) })
            enforce b)
          (λ _. resolve tt)

  -- `try { const db = await initDB(); return new Promise(…) } catch { return fallback }`: only a
  -- failure to open the database is caught.
  unfoldable pub with_db : {A : Type 0} → A → Browser → Async Session A → Async Session A
  with_db fallback b m s = elim (init_db b s).0 [
    | resolved _ ↦ m (init_db b s).1
    | rejected _ ↦ (resolved fallback, (init_db b s).1)
  ]

  -- `clearAudioCache`: one transaction over both stores
  unfoldable pub clear_audio_cache : Browser → Async Session (Unit {0})
  unfolding init_db write with_db
  clear_audio_cache b =
      if not b.window
      then resolve tt
      else with_db tt b (
          write b
            (λ s. record s { audio = blobs.clear s.audio; providers = keys.clear s.providers }))

  -- `providerKey?.trim() || null`
  abbrev pub trimmed_key : Option VoiceProviderKeyEntry → Option String
  trimmed_key none = none
  trimmed_key (some e) = if is_empty (trim e.provider_key) then none else some (trim e.provider_key)

  -- `getVoiceProviderKey`
  unfoldable pub get_voice_provider_key : Browser → String → Async Session (Option String)
  unfolding init_db with_db
  get_voice_provider_key b voice_id =
      if is_empty voice_id || not b.window
      then resolve none
      else with_db none b (λ s.
        (resolved (if b.served then trimmed_key (keys.get s.providers voice_id) else none), s))

  -- `setVoiceProviderKey`
  unfoldable pub set_voice_provider_key : Browser → String → String → Async Session (Unit {0})
  unfolding init_db write
  set_voice_provider_key b voice_id provider_key =
      if is_empty voice_id || is_empty provider_key || not b.window
      then resolve tt
      else try_catch
          (do
            init_db b
            write b (λ s. record s {
              providers =
                  keys.put s.providers (record {
                    voice_id = voice_id;
                    provider_key = provider_key;
                    updated_at = b.now;
                  });
            }))
          (λ _. resolve tt)

  -- `removeVoiceProviderKey`
  unfoldable pub remove_voice_provider_key : Browser → String → Async Session (Unit {0})
  unfolding init_db write with_db
  remove_voice_provider_key b voice_id =
      if is_empty voice_id || not b.window
      then resolve tt
      else with_db tt b (write b (λ s. record s { providers = keys.delete s.providers voice_id }))

  -- `removeCachedAudio`
  unfoldable pub remove_cached_audio : Browser → String → Async Session (Unit {0})
  unfolding init_db write with_db
  remove_cached_audio b key =
      if is_empty key || not b.window
      then resolve tt
      else with_db tt b (write b (λ s. record s { audio = blobs.delete s.audio key }))

  -- `getAudioCacheSize`
  unfoldable pub get_audio_cache_size : Browser → Async Session ℕ
  unfolding init_db with_db
  get_audio_cache_size b =
      if not b.window
      then resolve 0
      else with_db 0 b
          (λ s. (resolved (if b.served then sum_from 0 (blobs.get_all s.audio) else 0), s))
