-- ===== src/Voices/Preview/Urls.antt =====
-- How long the object URLs of a preview live
-- (web/src/modules/voices/components/voice-audio-preview.tsx).
use go_grpc_microservices.Prelude.{
  ℕ, suc, ◌≡◌, ◌⊎◌, inl, inr, refl, String, false, Option, none, some, [], ◌∷◌, ◌||◌, arith,
  Bool-cases,
}
use go_grpc_microservices.Async.{Settled, resolved, is_resolved, Settled-cases}
use go_grpc_microservices.Text.{is_empty, absent}
use go_grpc_microservices.ObjectStore.{ObjectStore}
use go_grpc_microservices.AudioCache.Entry.{Blob, entry_key, entry_voice_id}
use go_grpc_microservices.AudioCache.Session.{
  Browser, get_voice_provider_key, set_voice_provider_key,
}
use go_grpc_microservices.AudioCache.Session.Laws.{cache_never_rejects}
use go_grpc_microservices.AudioFetch.{
  FetchReply, thrown, not_ok, unreadable, body, Page, fetch_audio_with_cache, fetch_missing,
  get_cached_audio_object_url,
}
use go_grpc_microservices.AudioFetch.Serving.{cached_blob, cached_blob-cases}
use go_grpc_microservices.Voices.Playback.{QueryClient, get_voice_playback}
use go_grpc_microservices.Voices.Preview.{Answers, Preview, cached_only, look_up, fetch_new, load}

module _ (blobs : ObjectStore entry_key) (keys : ObjectStore entry_voice_id) where
  -- No object URL was made.
  abbrev SameUrls : Page blobs keys → Page blobs keys → Type 0
  SameUrls p q = (q.urls ≡ p.urls) × (q.next_url ≡ p.next_url)

  -- One was made.
  abbrev NewUrl : Page blobs keys → Page blobs keys → Type 0
  NewUrl p q =
      (blob : Blob) × (q.urls ≡ record { id = p.next_url; blob = blob } ∷ p.urls)
      × (q.next_url ≡ suc p.next_url)

  cached_url_outcome :
      (b : Browser) (key : String) (p : Page blobs keys)
      → let r = get_cached_audio_object_url blobs keys b key p in
        ((r.0 ≡ resolved none) × SameUrls p r.1)
        ⊎ ((r.0 ≡ resolved (some p.next_url)) × NewUrl p r.1)
  unfolding get_cached_audio_object_url
  cached_url_outcome b key p = elim (cached_blob-cases blobs keys b key p) [
    | inl e ↦ inl (ground arith, ground arith)
    | inr (blob, e) ↦ elim (Bool-cases (is_empty key)) [
      | inl k ↦ inl (ground arith, ground arith)
      | inr k ↦ inr (ground arith, (blob, ground arith, ground arith))
    ]
  ]

  -- A call either fails and makes no object URL, or it resolves to the one that it made.
  abbrev UrlOutcome : Page blobs keys → Settled ℕ → Page blobs keys → Type 0
  UrlOutcome p r q =
      ((is_resolved r ≡ false) × SameUrls p q) ⊎ ((r ≡ resolved p.next_url) × NewUrl p q)

  missing_outcome :
      (b c : Browser) (reply : FetchReply) (url key : String) (p : Page blobs keys)
      → (absent (some url) || is_empty key) ≡ false
      → cached_blob blobs keys b key p ≡ resolved none
      → let r = fetch_audio_with_cache blobs keys b c reply (some url) key p in UrlOutcome p r.0 r.1
  unfolding fetch_audio_with_cache fetch_missing
  missing_outcome b c thrown url key p u e = inl (ground arith, ground arith)
  missing_outcome b c (not_ok m) url key p u e = inl (ground arith, ground arith)
  missing_outcome b c unreadable url key p u e = inl (ground arith, ground arith)
  missing_outcome b c (body blob) url key p u e =
      inr (ground arith, (blob, ground arith, ground arith))

  fetch_outcome :
      (b c : Browser) (reply : FetchReply) (url key : String) (p : Page blobs keys)
      → let r = fetch_audio_with_cache blobs keys b c reply (some url) key p in UrlOutcome p r.0 r.1
  unfolding fetch_audio_with_cache fetch_missing
  fetch_outcome b c reply url key p = elim (Bool-cases (absent (some url) || is_empty key)) [
    | inl u ↦ inl (ground arith, ground arith)
    | inr u ↦ elim (cached_blob-cases blobs keys b key p) [
      | inl e ↦ missing_outcome b c reply url key p u e
      | inr (blob, e) ↦ inr (ground arith, (blob, ground arith, ground arith))
    ]
  ]

  -- What a call of the component leaves alone.
  abbrev SameRef : Preview blobs keys → Preview blobs keys → Type 0
  SameRef s t =
      (t.object_url ≡ s.object_url)
      × (t.is_loading_audio ≡ s.is_loading_audio)
      × (t.played ≡ s.played)

  cached_only_outcome :
      (a : Answers) (key : Option String) (s : Preview blobs keys)
      → let r = cached_only blobs keys a key s in
        (((r.0 ≡ resolved none) × SameUrls s.page r.1.page)
          ⊎ ((r.0 ≡ resolved (some s.page.next_url)) × NewUrl s.page r.1.page))
        × SameRef s r.1
  unfolding cached_only
  cached_only_outcome a none s = (inl (refl, (refl, refl)), (refl, refl, refl))
  cached_only_outcome a (some key) s = elim (Bool-cases (is_empty key)) [
    | inl e ↦ (inl (ground arith, ground arith), ground arith)
    | inr e ↦ elim (cached_url_outcome a.cached_read key s.page) [
      | inl (f, (u, n)) ↦ (inl (ground arith, ground arith), ground arith)
      | inr (f, (blob, u, n)) ↦
          (inr (ground arith, (blob, ground arith, ground arith)), ground arith)
    ]
  ]

  module _ (client : QueryClient) where
    fetch_new_outcome :
        (a : Answers) (voice_id : String) (s : Preview blobs keys)
        → let r = fetch_new blobs keys client a voice_id s in
          UrlOutcome s.page r.0 r.1.page × SameRef s r.1
    unfolding fetch_new look_up
    fetch_new_outcome a voice_id s =
        elim (Settled-cases (get_voice_playback client a.now a.playback s.query).0) [
          | inr (m, e) ↦ (inl (ground arith, ground arith), ground arith)
          | inl (pb, e) ↦
              let stored =
                set_voice_provider_key blobs keys a.key_write voice_id pb.provider_key
                  s.page.session in
              let q = record s.page { session = stored.1 } in
              let kept =
                (cache_never_rejects blobs keys a.key_write voice_id pb.provider_key
                  (record { bytes = []; media = "" }) s.page.session).4 in
              elim (fetch_outcome a.audio_read a.audio_write a.reply pb.url pb.provider_key q) [
                | inl (f, (u, n)) ↦ (inl (ground arith, ground arith), ground arith)
                | inr (f, (blob, u, n)) ↦
                    (inr (ground arith, (blob, ground arith, ground arith)), ground arith)
              ]
        ]

    -- Loading makes no object URL if it fails, and else the one that it resolves to.
    pub load_outcome :
        (a : Answers) (voice_id : String) (s : Preview blobs keys)
        → let r = load blobs keys client a voice_id s in
          UrlOutcome s.page r.0 r.1.page × SameRef s r.1
    unfolding load cached_only
    load_outcome a voice_id s =
        let read = get_voice_provider_key blobs keys a.key_read voice_id s.page.session in
        let q = record s.page { session = read.1 } in
        let t = record s { page = q } in
        let never =
          (cache_never_rejects blobs keys a.key_read voice_id voice_id
            (record { bytes = []; media = "" }) s.page.session).3 in
        elim (Settled-cases read.0) [
          | inr (m, e) ↦ cc
          | inl (persisted, e) ↦
              let c = cached_only blobs keys a persisted t in
              let (cached, kept) = cached_only_outcome a persisted t in
              elim cached [
                | inr (f, (blob, u, n)) ↦
                    (inr (ground arith, (blob, ground arith, ground arith)), ground arith)
                | inl (f, (u, n)) ↦
                    let (fetched, left) = fetch_new_outcome a voice_id c.1 in
                    elim fetched [
                      | inl (g, (v, m)) ↦ (inl (ground arith, ground arith), ground arith)
                      | inr (g, (blob, v, m)) ↦
                          (inr (ground arith, (blob, ground arith, ground arith)), ground arith)
                    ]
              ]
        ]
