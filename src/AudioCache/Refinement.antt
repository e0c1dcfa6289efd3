-- ===== src/AudioCache/Refinement.antt =====
-- The functions of web/src/lib/audio-cache.ts on cached audio, against the abstract map of
-- `AudioCache.LossyMap`.
use go_grpc_microservices.Prelude.{
  ℕ, ◌-◌, ◌≡◌, refl, ◌∙◌, sym, String, Bool, Option, none, some, List, [], ◌∷◌, ◌⊎◌, inl, inr,
  arith, eq_iff, if◌then◌else◌, Bool-cases, ◌==◌,
}
use mathlib.Core.Option
use go_grpc_microservices.Async.{Settled, resolved, rejected}
use go_grpc_microservices.Text.{is_empty}
use go_grpc_microservices.ObjectStore.{ObjectStore, get-delete, get-clear}
use go_grpc_microservices.AudioCache.Entry.{
  Blob, CacheEntry, entry_key, entry_voice_id, normalize_entry_size, sum_from, eviction_order,
}
use go_grpc_microservices.AudioCache.Eviction.{evict_from, enforce_cache_cap}
use go_grpc_microservices.AudioCache.LossyMap.{
  Call, read, write, remove, clear, IsStep, Trace, IsCached, Trace-IsCached,
}
use go_grpc_microservices.AudioCache.Session.{
  Browser, Session, fresh_entry, get_cached_audio, cache_audio, enforce, clear_audio_cache,
  remove_cached_audio,
}
use go_grpc_microservices.AudioCache.Session.Entries.{
  blob_of, blob_of-get_cached_audio, get_cached_audio_lem,
}

module _ (blobs : ObjectStore entry_key) (keys : ObjectStore entry_voice_id) where
  -- The blob that a settled call hands out.
  abbrev handed : Settled (Option Blob) → Option Blob
  handed (resolved o) = o
  handed (rejected e) = none

  -- A call on the session.
  abbrev pub call : Browser → Call → Session blobs keys → Option Blob × Session blobs keys
  call b (read key) s =
      (handed (get_cached_audio blobs keys b key s).0, (get_cached_audio blobs keys b key s).1)
  call b (write key blob) s = (none, (cache_audio blobs keys b key blob s).1)
  call b (remove key) s = (none, (remove_cached_audio blobs keys b key s).1)
  call b clear s = (none, (clear_audio_cache blobs keys b s).1)

  -- What the calls hand out, one after another, each with what the browser answers
  abbrev pub outcomes : List (Browser × Call) → Session blobs keys → List (Call × Option Blob)
  outcomes [] s = []
  outcomes ((b, c) ∷ cs) s = (c, (call b c s).0) ∷ outcomes cs (call b c s).1

  abbrev pub perform : List (Browser × Call) → Session blobs keys → Session blobs keys
  perform [] s = s
  perform ((b, c) ∷ cs) s = perform cs (call b c s).1

  evict_from-lossy :
      (size : ℕ) (es : List CacheEntry) (s : blobs.Contents) (k : String)
      → (blobs.get (evict_from blobs size es s) k ≡ none)
        ⊎ (blobs.get (evict_from blobs size es s) k ≡ blobs.get s k)
  unfolding evict_from
  evict_from-lossy size [] s k = inr refl
  evict_from-lossy size (e ∷ es) s k = ground (
    arith,
    evict_from-lossy (size - normalize_entry_size e) es (blobs.delete s e.key) k,
    get-delete blobs s e.key k,
  )

  enforce-lossy :
      (listed evicted : Bool) (s : blobs.Contents) (k : String)
      → (blobs.get (enforce_cache_cap blobs listed evicted s).1 k ≡ none)
        ⊎ (blobs.get (enforce_cache_cap blobs listed evicted s).1 k ≡ blobs.get s k)
  unfolding enforce_cache_cap
  enforce-lossy listed evicted s k =
      let entries = if listed then blobs.get_all s else [] in
      ground (arith, evict_from-lossy (sum_from 0 entries) (eviction_order entries) s k)

  -- What `cacheAudio` makes of the audio store.
  cache_audio-cases :
      (b : Browser) (key : String) (blob : Blob) (s : Session blobs keys)
      → ((cache_audio blobs keys b key blob s).1.audio ≡ s.audio)
        ⊎ ((cache_audio blobs keys b key blob s).1.audio
            ≡ (enforce_cache_cap blobs b.listed b.evicted s.audio).1)
        ⊎ ((cache_audio blobs keys b key blob s).1.audio
            ≡ (enforce_cache_cap blobs b.listed b.evicted
                (blobs.put s.audio (fresh_entry blobs keys key blob b.now))).1)
  unfolding cache_audio enforce
  cache_audio-cases b key blob s = ground arith

  map_lossy :
      (t u : blobs.Contents) (k : String)
      → (blobs.get u k ≡ none) ⊎ (blobs.get u k ≡ blobs.get t k)
      → (Option.map (λ e. e.blob) (blobs.get u k) ≡ none)
        ⊎ (Option.map (λ e. e.blob) (blobs.get u k) ≡ Option.map (λ e. e.blob) (blobs.get t k))
  map_lossy t u k (inl h) = inl (rw h refl)
  map_lossy t u k (inr h) = inr (rw h refl)

  put-cases :
      (key : String) (blob : Blob) (now : ℕ) (t : blobs.Contents) (k : String)
      → let m =
          Option.map
            (λ e. e.blob)
            (blobs.get (blobs.put t (fresh_entry blobs keys key blob now)) k) in
        (m ≡ Option.map (λ e. e.blob) (blobs.get t k)) ⊎ ((key ≡ k) × (m ≡ some blob))
  put-cases key blob now t k = elim (Bool-cases (key == k)) [
    | inl same ↦ inr (
      ground (arith, eq_iff key k),
      rw (blobs.get-put t (fresh_entry blobs keys key blob now) k, same) refl,
    )
    | inr other ↦ inl (rw (blobs.get-put t (fresh_entry blobs keys key blob now) k, other) refl)
  ]

  -- What a written entry and an eviction leave under a key.
  write-lossy :
      (b : Browser) (key : String) (blob : Blob) (s : Session blobs keys) (k : String)
      → let m = blob_of blobs keys (cache_audio blobs keys b key blob s).1 k in
        (m ≡ none) ⊎ (m ≡ blob_of blobs keys s k) ⊎ ((key ≡ k) × (m ≡ some blob))
  write-lossy b key blob s k =
      let entry = fresh_entry blobs keys key blob b.now in
      let stored = blobs.put s.audio entry in
      elim (cache_audio-cases b key blob s) [
        | inl e ↦ inr (inl (rw e refl))
        | inr (inl e) ↦
            rw e
              (elim (map_lossy s.audio (enforce_cache_cap blobs b.listed b.evicted s.audio).1 k
                (enforce-lossy b.listed b.evicted s.audio k)) [
                  | inl lost ↦ inl lost
                  | inr kept ↦ inr (inl kept)
                ])
        | inr (inr e) ↦
            rw e
              (elim (map_lossy stored (enforce_cache_cap blobs b.listed b.evicted stored).1 k
                (enforce-lossy b.listed b.evicted stored k)) [
                  | inl lost ↦ inl lost
                  | inr kept ↦ inr (elim (put-cases key blob b.now s.audio k) [
                    | inl old ↦ inl (kept ∙ old)
                    | inr (same, own) ↦ inr (same, kept ∙ own)
                  ])
                ])
      ]

  remove-lossy :
      (b : Browser) (key : String) (s : Session blobs keys) (k : String)
      → let m = blob_of blobs keys (remove_cached_audio blobs keys b key s).1 k in
        (m ≡ blob_of blobs keys s k) ⊎ ((key ≡ k) × (m ≡ none))
  unfolding remove_cached_audio
  remove-lossy b key s k = ground (arith, get-delete blobs s.audio key k, eq_iff key k)

  clear-lossy :
      (b : Browser) (s : Session blobs keys)
      → ((clear_audio_cache blobs keys b s).1.audio ≡ s.audio)
        ⊎ ((clear_audio_cache blobs keys b s).1.audio ≡ blobs.clear s.audio)
  unfolding clear_audio_cache
  clear-lossy b s = ground arith

  read-out :
      (b : Browser) (key : String) (s : Session blobs keys)
      → (handed (get_cached_audio blobs keys b key s).0 ≡ none)
        ⊎ (handed (get_cached_audio blobs keys b key s).0 ≡ blob_of blobs keys s key)
  unfolding get_cached_audio
  read-out b key s = elim (Bool-cases (is_empty key)) [
    | inl e ↦ inl (ground arith)
    | inr e ↦ ground (arith, get_cached_audio_lem blobs keys b key s e)
  ]

  -- Each call does what the map may do.
  call-IsStep :
      (b : Browser) (c : Call) (s : Session blobs keys)
      → IsStep (blob_of blobs keys s) c (call b c s).0 (blob_of blobs keys (call b c s).1)
  call-IsStep b (read key) s =
      (read-out b key s, λ k. blob_of-get_cached_audio blobs keys b key k s)
  call-IsStep b (write key blob) s = (refl, write-lossy b key blob s)
  call-IsStep b (remove key) s = (refl, remove-lossy b key s)
  call-IsStep b clear s = (
    refl,
    elim (clear-lossy b s) [
      | inl e ↦ inl (λ k. rw e refl)
      | inr e ↦ inr (λ k. rw (e, get-clear blobs s.audio k) refl)
    ],
  )

  -- The audio cache implements a map that may lose what it holds: whatever is called and whatever
  -- the browser answers, every call hands out and leaves what such a map may. A read changes
  -- nothing; a removal and a clearing do all of their work or none; and a write may lose entries,
  -- but stores no blob except its own under its own key.
  pub perform-Trace :
      (cs : List (Browser × Call)) (s : Session blobs keys)
      → Trace (blob_of blobs keys s) (outcomes cs s) (blob_of blobs keys (perform cs s))
  perform-Trace [] s = Trace.done
  perform-Trace ((b, c) ∷ cs) s = Trace.step (call-IsStep b c s) (perform-Trace cs (call b c s).1)

  -- No audio is made up or mixed up: after any calls, whatever the browser answers, a read hands
  -- out only a blob that one of the calls cached under that key, or that was there before.
  pub read-IsCached :
      (cs : List (Browser × Call)) (b : Browser) (key : String) (blob : Blob)
      (s : Session blobs keys)
      → (call b (read key) (perform cs s)).0 ≡ some blob
      → (blob_of blobs keys s key ≡ some blob) ⊎ IsCached key blob (outcomes cs s)
  read-IsCached cs b key blob s h = elim (read-out b key (perform cs s)) [
    | inl e ↦ cc
    | inr e ↦ Trace-IsCached key blob (perform-Trace cs s) (sym e ∙ h)
  ]
