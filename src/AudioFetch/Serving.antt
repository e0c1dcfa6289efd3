-- ===== src/AudioFetch/Serving.antt =====
-- Where the audio comes from, what the address stands for, and which failures reach the caller.
use go_grpc_microservices.Prelude.{
  ℕ, ◌≡◌, refl, ◌⊎◌, ◌↔◌, inl, inr, String, Bool, true, false, ◌||◌, Option, none, some, List, [],
  ◌∷◌, arith, if◌then◌else◌, Bool-cases, nat_eq,
}
use go_grpc_microservices.Async.{Settled, resolved, rejected, is_resolved}
use go_grpc_microservices.Text.{is_empty, absent}
use go_grpc_microservices.ObjectStore.{ObjectStore}
use go_grpc_microservices.AudioCache.Entry.{Blob, entry_key, entry_voice_id}
use go_grpc_microservices.AudioCache.Session.{Browser, get_cached_audio}
use go_grpc_microservices.AudioCache.Session.Laws.{cache_never_rejects}
use go_grpc_microservices.AudioFetch.{
  FetchReply, thrown, not_ok, unreadable, body, ObjectUrl, Page, fetch_missing,
  fetch_audio_with_cache, prefetch_audio,
}

-- The reply carries audio.
abbrev has_body : FetchReply → Bool
has_body (body blob) = true
has_body _ = false

module _ (blobs : ObjectStore entry_key) (keys : ObjectStore entry_voice_id) where
  -- What an object URL stands for.
  abbrev pub blob_at : ℕ → List ObjectUrl → Option Blob
  blob_at id [] = none
  blob_at id (u ∷ us) = if nat_eq u.id id then some u.blob else blob_at id us

  -- The blob that a read of the cache brings.
  abbrev pub cached_blob : Browser → String → Page blobs keys → Settled (Option Blob)
  cached_blob b key p = (get_cached_audio blobs keys b key p.session).0

  -- Cached audio is served without a request: the address stands for the cached blob, whatever the
  -- network would answer.
  pub fetch_audio_hit :
      (b c : Browser) (reply : FetchReply) (url : Option String) (key : String) (blob : Blob)
      (p : Page blobs keys)
      → absent url ≡ false
      → is_empty key ≡ false
      → cached_blob b key p ≡ resolved (some blob)
      → let r = fetch_audio_with_cache blobs keys b c reply url key p in
        (r.0 ≡ resolved p.next_url)
        × (blob_at p.next_url r.1.urls ≡ some blob)
        × (r.1.requested ≡ p.requested)
  unfolding fetch_audio_with_cache
  fetch_audio_hit b c reply url key blob p u k h = (ground arith, ground arith, ground arith)

  -- Audio that is not cached is requested once, and the address stands for the blob that comes,
  -- whether or not it can be cached.
  pub fetch_audio_miss :
      (b c : Browser) (url key : String) (blob : Blob) (p : Page blobs keys)
      → is_empty url ≡ false
      → is_empty key ≡ false
      → cached_blob b key p ≡ resolved none
      → let r = fetch_audio_with_cache blobs keys b c (body blob) (some url) key p in
        (r.0 ≡ resolved p.next_url)
        × (blob_at p.next_url r.1.urls ≡ some blob)
        × (r.1.requested ≡ url ∷ p.requested)
  unfolding fetch_audio_with_cache fetch_missing
  fetch_audio_miss b c url key blob p u k h = (ground arith, ground arith, ground arith)

  Outcome-cases :
      (r : Settled (Option Blob))
      → is_resolved r ≡ true
      → (r ≡ resolved none) ⊎ ((blob : Blob) × (r ≡ resolved (some blob)))
  Outcome-cases (resolved none) h = inl refl
  Outcome-cases (resolved (some blob)) h = inr (blob, refl)
  Outcome-cases (rejected e) h = cc

  pub cached_blob-cases :
      (b : Browser) (key : String) (p : Page blobs keys)
      → (cached_blob b key p ≡ resolved none)
        ⊎ ((blob : Blob) × (cached_blob b key p ≡ resolved (some blob)))
  cached_blob-cases b key p =
      Outcome-cases (cached_blob b key p)
        (cache_never_rejects blobs keys b key key (record { bytes = []; media = "" }) p.session).0

  miss-is_resolved :
      (b c : Browser) (reply : FetchReply) (url : Option String) (key : String)
      (p : Page blobs keys)
      → (absent url || is_empty key) ≡ false
      → cached_blob b key p ≡ resolved none
      → is_resolved (fetch_audio_with_cache blobs keys b c reply url key p).0 ≡ has_body reply
  unfolding fetch_audio_with_cache fetch_missing
  miss-is_resolved b c thrown url key p u h = ground arith
  miss-is_resolved b c (not_ok e) url key p u h = ground arith
  miss-is_resolved b c unreadable url key p u h = ground arith
  miss-is_resolved b c (body blob) url key p u h = ground arith

  -- A call rejects exactly if the address or the key is missing, or the audio is not cached and
  -- the request brings none; no failure of the cache makes it reject.
  fetch_audio_resolves_iff :
      (b c : Browser) (reply : FetchReply) (url : Option String) (key : String)
      (p : Page blobs keys)
      → (is_resolved (fetch_audio_with_cache blobs keys b c reply url key p).0 ≡ true) ↔ (
          (absent url ≡ false)
          × (is_empty key ≡ false)
          × (((blob : Blob) × (cached_blob b key p ≡ resolved (some blob)))
              ⊎ (has_body reply ≡ true)))
  unfolding fetch_audio_with_cache fetch_missing
  fetch_audio_resolves_iff b c reply url key p = elim (Bool-cases (absent url || is_empty key)) [
    | inl u ↦ (λ h. ground arith, λ h. ground arith)
    | inr u ↦ elim (cached_blob-cases b key p) [
      | inl e ↦
          let missed = miss-is_resolved b c reply url key p u e in
          (λ h. (ground arith, ground arith, inr (ground arith)), λ h. ground arith)
      | inr (blob, e) ↦ (λ h. (ground arith, ground arith, inl (blob, e)), λ h. ground arith)
    ]
  ]

  -- Prefetching never rejects.
  pub prefetch_resolves :
      (b c : Browser) (reply : FetchReply) (url key : String) (p : Page blobs keys)
      → (prefetch_audio blobs keys b c reply url key p).0 ≡ resolved tt
  unfolding prefetch_audio
  prefetch_resolves b c reply url key p = elim (cached_blob-cases b key p) [
    | inl e ↦ ground arith
    | inr (blob, e) ↦ ground arith
  ]
