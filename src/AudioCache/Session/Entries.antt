-- ===== src/AudioCache/Session/Entries.antt =====
-- The cached entries through the functions of the session.
use go_grpc_microservices.Prelude.{
  ℕ, ◌≤◌, ◌<◌, ◌≡◌, String, true, false, ◌&&◌, Option, none, some, ◌⊎◌, arith, leb, eq_iff, eq_refl,
  if◌then◌else◌, Option-cases, inl, inr, All, All-In, All-of_In, In,
}
use mathlib.Core.Option
use go_grpc_microservices.Async.{resolved, is_resolved}
use go_grpc_microservices.Text.{is_empty}
use go_grpc_microservices.ObjectStore.{ObjectStore, In-put, In-of_get}
use go_grpc_microservices.AudioCache.Entry.{
  Blob, CacheEntry, entry_key, entry_voice_id, blob_size, normalize_entry_size, recency, total,
}
use go_grpc_microservices.AudioCache.Eviction.{cache_cap_bytes, enforce_cache_cap}
use go_grpc_microservices.AudioCache.Eviction.Guarantees.{newest_kept, enforce_cache_cap-le-cap}
use go_grpc_microservices.AudioCache.Session.{
  Browser, Session, init_db, touch, fresh_entry, get_cached_audio, cache_audio, enforce,
}
use go_grpc_microservices.AudioCache.Session.Laws.{IsServing}

module _ (blobs : ObjectStore entry_key) (keys : ObjectStore entry_voice_id) where
  -- The blob that a key reaches.
  abbrev pub blob_of : Session blobs keys → String → Option Blob
  blob_of s key = Option.map (λ e. e.blob) (blobs.get s.audio key)

  -- A read moves its entry in the eviction order and changes nothing else: whatever the browser
  -- answers, every key reaches the blob it reached before.
  pub blob_of-get_cached_audio :
      (b : Browser) (key other : String) (s : Session blobs keys)
      → blob_of (get_cached_audio blobs keys b key s).1 other ≡ blob_of s other
  unfolding get_cached_audio touch
  blob_of-get_cached_audio b key other s = elim (Option-cases (blobs.get s.audio key)) [
    | inl e ↦ ground arith
    | inr (v, e) ↦ ground (
      arith,
      blobs.get-put s.audio (touch blobs keys b.now v) other,
      (In-of_get blobs s.audio key e).1,
      eq_iff key other,
    )
  ]

  -- On an open database a read resolves to the stored blob, if the request succeeds.
  pub get_cached_audio_lem :
      (b : Browser) (key : String) (s : Session blobs keys)
      → is_empty key ≡ false
      → (get_cached_audio blobs keys b key s).0
        ≡ resolved (
            if b.window && is_resolved (init_db blobs keys b s).0 && b.served
            then blob_of s key
            else none)
  unfolding get_cached_audio
  get_cached_audio_lem b key s h = elim (Option-cases (blobs.get s.audio key)) [
    | inl e ↦ ground arith
    | inr (v, e) ↦ ground arith
  ]

  -- The audio store that `cacheAudio` leaves behind when its requests succeed.
  audio-cache_audio :
      (b : Browser) (key : String) (blob : Blob) (s : Session blobs keys)
      → IsServing b
      → is_empty key ≡ false
      → leb s.version 3 ≡ true
      → (cache_audio blobs keys b key blob s).1.audio
        ≡ (enforce_cache_cap blobs true true
            (blobs.put s.audio (fresh_entry blobs keys key blob b.now))).1
  unfolding cache_audio enforce
  audio-cache_audio b key blob s hb h v = ground arith

  pub connected-cache_audio :
      (b : Browser) (key : String) (blob : Blob) (s : Session blobs keys)
      → IsServing b
      → is_empty key ≡ false
      → leb s.version 3 ≡ true
      → (cache_audio blobs keys b key blob s).1.connected ≡ true
  unfolding cache_audio enforce
  connected-cache_audio b key blob s hb h v = ground arith

  -- Reading and caching audio leave the provider keys alone, whatever the browser answers.
  pub providers-cache_audio :
      (b : Browser) (key : String) (blob : Blob) (s : Session blobs keys)
      → ((cache_audio blobs keys b key blob s).1.providers ≡ s.providers)
        × ((get_cached_audio blobs keys b key s).1.providers ≡ s.providers)
  unfolding cache_audio enforce get_cached_audio
  providers-cache_audio b key blob s = elim (Option-cases (blobs.get s.audio key)) [
    | inl e ↦ (ground arith, ground arith)
    | inr (v, e) ↦ (ground arith, ground arith)
  ]

  -- `cacheAudio` leaves the store within the cap, if its requests succeed.
  cache_audio-le-cap :
      (b : Browser) (key : String) (blob : Blob) (s : Session blobs keys)
      → IsServing b
      → is_empty key ≡ false
      → leb s.version 3 ≡ true
      → total (blobs.get_all (cache_audio blobs keys b key blob s).1.audio) ≤ cache_cap_bytes
  cache_audio-le-cap b key blob s hb h v =
      rw (audio-cache_audio b key blob s hb h v)
        (enforce_cache_cap-le-cap blobs
          (blobs.put s.audio (fresh_entry blobs keys key blob b.now))).1

  -- Beside a fresh entry, what is stored was used before it.
  newest_put :
      (key : String) (blob : Blob) (now : ℕ) (s : blobs.Contents)
      → All (λ e. recency e < now) (blobs.get_all s)
      → let entry = fresh_entry blobs keys key blob now in
        All (λ e. (e ≡ entry) ⊎ (recency e < recency entry)) (blobs.get_all (blobs.put s entry))
  unfolding recency
  newest_put key blob now s earlier =
      All-of_In (λ e. (e ≡ entry) ⊎ (recency e < recency entry)) _ older
    where
      entry : CacheEntry
      entry = fresh_entry blobs keys key blob now

      older :
          (e : CacheEntry)
          → In e (blobs.get_all (blobs.put s entry))
          → (e ≡ entry) ⊎ (recency e < recency entry)
      older e i = elim (In-put blobs s entry e i) [
        | inl p ↦ inl p
        | inr (j, _) ↦
            let before : recency e < now =
              All-In (λ g. recency g < now) (blobs.get_all s) earlier j in
            inr (ground arith)
      ]

  -- What was cached is read back: if the requests succeed, the blob fits the cap on its own, and
  -- every entry already stored was used before the write, then a read of the key resolves to the
  -- blob, whatever had to be evicted.
  pub get_cached_audio-cache :
      (b c : Browser) (key : String) (blob : Blob) (s : Session blobs keys)
      → IsServing b
      → IsServing c
      → is_empty key ≡ false
      → leb s.version 3 ≡ true
      → blob_size blob ≤ cache_cap_bytes
      → All (λ e. recency e < b.now) (blobs.get_all s.audio)
      → (get_cached_audio blobs keys c key (cache_audio blobs keys b key blob s).1).0
        ≡ resolved (some blob)
  unfolding normalize_entry_size init_db
  get_cached_audio-cache b c key blob s hb hc h v fits earlier =
      let entry = fresh_entry blobs keys key blob b.now in
      let written = blobs.put s.audio entry in
      let kept : blobs.get (enforce_cache_cap blobs true true written).1 key ≡ some entry =
        newest_kept blobs written true true entry
          (ground (arith, blobs.get-put s.audio entry key, eq_refl key)) (ground arith)
          (newest_put key blob b.now s.audio earlier) in
      ground (
        arith,
        get_cached_audio_lem c key (cache_audio blobs keys b key blob s).1 h,
        audio-cache_audio b key blob s hb h v,
        connected-cache_audio b key blob s hb h v,
      )
