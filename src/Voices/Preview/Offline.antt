-- ===== src/Voices/Preview/Offline.antt =====
-- A preview that was loaded once is served from the browser's database
-- (web/src/modules/voices/components/voice-audio-preview.tsx).
use go_grpc_microservices.Prelude.{
  ℕ, ◌≤◌, ◌<◌, ◌≡◌, sym, subst, ap, ◌∙◌, String, true, false, none, some, ◌∷◌, arith, leb, eq_refl,
  All,
}
use go_grpc_microservices.Async.{resolved}
use go_grpc_microservices.Text.{is_empty, trim}
use go_grpc_microservices.ObjectStore.{ObjectStore}
use go_grpc_microservices.AudioCache.Entry.{
  Blob, VoiceProviderKeyEntry, entry_key, entry_voice_id, blob_size, recency,
}
use go_grpc_microservices.AudioCache.Eviction.{cache_cap_bytes}
use go_grpc_microservices.AudioCache.Session.{
  Browser, Session, get_voice_provider_key, set_voice_provider_key,
}
use go_grpc_microservices.AudioCache.Session.Laws.{IsServing}
use go_grpc_microservices.AudioFetch.{
  FetchReply, body, Page, fetch_audio_with_cache, get_cached_audio_object_url,
}
use go_grpc_microservices.AudioFetch.Serving.{blob_at, cached_blob, fetch_audio_miss}
use go_grpc_microservices.AudioFetch.Again.{read_missing, fetch_audio_caches}
use go_grpc_microservices.Voices.Playback.{
  VoicePlaybackResult, QueryClient, IsPlayable, get_voice_playback,
}
use go_grpc_microservices.Voices.Preview.{Answers, Preview, cached_only, look_up, fetch_new, load}

module _ (blobs : ObjectStore entry_key) (keys : ObjectStore entry_voice_id) where
  -- A voice whose provider key was never stored.
  key_missing :
      (b : Browser) (voice_id : String) (s : Session blobs keys)
      → leb s.version 3 ≡ true
      → keys.get s.providers voice_id ≡ none
      → let r = get_voice_provider_key blobs keys b voice_id s in
        (r.0 ≡ resolved none) × (r.1.audio ≡ s.audio) × (leb r.1.version 3 ≡ true)
  unfolding get_voice_provider_key
  key_missing b voice_id s v e = (ground arith, ground arith, ground arith)

  entry_for : Browser → String → String → VoiceProviderKeyEntry
  entry_for b voice_id key = record { voice_id = voice_id; provider_key = key; updated_at = b.now }

  key_stored :
      (b : Browser) (voice_id key : String) (s : Session blobs keys)
      → IsServing b
      → leb s.version 3 ≡ true
      → is_empty voice_id ≡ false
      → is_empty key ≡ false
      → let r = set_voice_provider_key blobs keys b voice_id key s in
        (r.0 ≡ resolved tt)
        × (r.1.audio ≡ s.audio)
        × (leb r.1.version 3 ≡ true)
        × (keys.get r.1.providers voice_id ≡ some (entry_for b voice_id key))
  unfolding set_voice_provider_key entry_for
  key_stored b voice_id key s hb v i k = (
    ground arith,
    ground arith,
    ground arith,
    ground (arith, keys.get-put s.providers (entry_for b voice_id key) voice_id, eq_refl voice_id),
  )

  -- Over an open database the stored key is found, and nothing changes.
  key_found :
      (c b : Browser) (voice_id key : String) (s : Session blobs keys)
      → IsServing c
      → s.connected ≡ true
      → is_empty voice_id ≡ false
      → is_empty key ≡ false
      → trim key ≡ key
      → keys.get s.providers voice_id ≡ some (entry_for b voice_id key)
      → let r = get_voice_provider_key blobs keys c voice_id s in
        (r.0 ≡ resolved (some key)) × (r.1 ≡ s)
  unfolding get_voice_provider_key entry_for
  key_found c b voice_id key s hc o i k t e = (ground arith, ground arith)

  url_found :
      (d : Browser) (key : String) (blob : Blob) (p : Page blobs keys)
      → is_empty key ≡ false
      → cached_blob blobs keys d key p ≡ resolved (some blob)
      → let r = get_cached_audio_object_url blobs keys d key p in
        (r.0 ≡ resolved (some p.next_url))
        × (blob_at blobs keys p.next_url r.1.urls ≡ some blob)
        × (r.1.requested ≡ p.requested)
  unfolding get_cached_audio_object_url
  url_found d key blob p k e = (ground arith, ground arith, ground arith)

  module _ (client : QueryClient) where
    -- A load that finds no provider key.
    load_new :
        (a : Answers) (voice_id : String) (pb : VoicePlaybackResult) (reply : FetchReply)
        (s : Preview blobs keys)
        → let read = get_voice_provider_key blobs keys a.key_read voice_id s.page.session in
          let stored =
            set_voice_provider_key blobs keys a.key_write voice_id pb.provider_key read.1 in
          let p = record s.page { session = stored.1 } in
          read.0 ≡ resolved none
          → (get_voice_playback client a.now a.playback s.query).0 ≡ resolved pb
          → stored.0 ≡ resolved tt
          → a.reply ≡ reply
          → let fetched =
              fetch_audio_with_cache blobs keys a.audio_read a.audio_write reply
                (some pb.url)
                pb.provider_key
                p in
            let r = load blobs keys client a voice_id s in
            (r.0 ≡ fetched.0) × (r.1.page ≡ fetched.1)
    unfolding load cached_only fetch_new look_up
    load_new a voice_id pb reply s e f g h = (ground arith, ground arith)

    -- A load that finds the provider key and the audio.
    load_cached :
        (a : Answers) (voice_id key : String) (url : ℕ) (s : Preview blobs keys)
        (p : Page blobs keys)
        → is_empty key ≡ false
        → s.page ≡ p
        → let read = get_voice_provider_key blobs keys a.key_read voice_id p.session in
          let found = get_cached_audio_object_url blobs keys a.cached_read key p in
          read.0 ≡ resolved (some key)
          → read.1 ≡ p.session
          → found.0 ≡ resolved (some url)
          → let r = load blobs keys client a voice_id s in
            (r.0 ≡ resolved url) × (r.1.page ≡ found.1) × (r.1.query ≡ s.query)
    unfolding load cached_only
    load_cached a voice_id key url s p k h e f g = (ground arith, ground arith, ground arith)

    -- A voice that was previewed once can be previewed again without the voice service and the
    -- network. If the first load finds no provider key, the voice is looked up and its audio comes,
    -- with all requests of the browser served, the database can be opened, the audio was not cached
    -- and fits the cap on its own, and all that is cached was used before, then a second load, for
    -- which the browser answers its reads, resolves to an object URL that stands for the same
    -- audio, whatever the service and the network would answer: neither is asked.
    pub load_again :
        (a later : Answers) (voice_id : String) (pb : VoicePlaybackResult) (blob : Blob)
        (s : Preview blobs keys)
        → a.reply ≡ body blob
        → (get_voice_playback client a.now a.playback s.query).0 ≡ resolved pb
        → IsPlayable pb
        → is_empty pb.url ≡ false
        → is_empty voice_id ≡ false
        → IsServing a.key_write
        → IsServing a.audio_read
        → IsServing a.audio_write
        → IsServing later.key_read
        → IsServing later.cached_read
        → leb s.page.session.version 3 ≡ true
        → keys.get s.page.session.providers voice_id ≡ none
        → blobs.get s.page.session.audio pb.provider_key ≡ none
        → blob_size blob ≤ cache_cap_bytes
        → All (λ f. recency f < a.audio_write.now) (blobs.get_all s.page.session.audio)
        → let first = load blobs keys client a voice_id s in
          let again = load blobs keys client later voice_id first.1 in
          (first.0 ≡ resolved s.page.next_url)
          × (again.0 ≡ resolved first.1.page.next_url)
          × (blob_at blobs keys s.page.next_url first.1.page.urls ≡ some blob)
          × (blob_at blobs keys first.1.page.next_url again.1.page.urls ≡ some blob)
          × (again.1.page.requested ≡ pb.url ∷ s.page.requested)
          × (again.1.query ≡ first.1.query)
    load_again a later voice_id pb blob s ea ep playable eu ei hw hr hc hk hd v nk na fits earlier =
        let read = get_voice_provider_key blobs keys a.key_read voice_id s.page.session in
        let (e0, a0, v0) = key_missing a.key_read voice_id s.page.session v nk in
        let (e1, a1, v1, g1) =
          key_stored a.key_write voice_id pb.provider_key read.1 hw v0 ei playable.0 in
        let stored =
          set_voice_provider_key blobs keys a.key_write voice_id pb.provider_key read.1 in
        let p = record s.page { session = stored.1 } in
        let same = a1 ∙ a0 in
        let absent = ap (λ c. blobs.get c pb.provider_key) same ∙ na in
        let before =
          subst (λ c. All (λ f. recency f < a.audio_write.now) (blobs.get_all c)) (sym same)
            earlier in
        let key = pb.provider_key in
        let first = load blobs keys client a voice_id s in
        let (l0, l1) = load_new a voice_id pb (body blob) s e0 ep e1 ea in
        let missed = (read_missing blobs keys a.audio_read key stored.1 hr v1 absent).0 in
        let fetched =
          fetch_audio_with_cache blobs keys a.audio_read a.audio_write (body blob) (some pb.url) key
            p in
        let (cached, opened, provs) =
          fetch_audio_caches blobs keys a.audio_read a.audio_write later.cached_read pb.url key blob
            p hr hc hd eu playable.0 v1 absent fits before in
        let (f0, f1, f2) =
          fetch_audio_miss blobs keys a.audio_read a.audio_write pb.url key blob p eu playable.0
            missed in
        let (k0, k1) =
          key_found later.key_read a.key_write voice_id key fetched.1.session hk opened ei
            playable.0 playable.1 (ap (λ c. keys.get c voice_id) provs ∙ g1) in
        let (u0, u1, u2) = url_found later.cached_read key blob fetched.1 playable.0 cached in
        let (q0, q1, q2) =
          load_cached later voice_id key fetched.1.next_url first.1 fetched.1 playable.0 l1 k0 k1
            u0 in
        let again = load blobs keys client later voice_id first.1 in
        (
          l0 ∙ f0,
          q0 ∙ ap (λ x. resolved x.next_url) (sym l1),
          ap (λ x. blob_at blobs keys s.page.next_url x.urls) l1 ∙ f1,
          ap (λ x. blob_at blobs keys x.next_url again.1.page.urls) l1
              ∙ ap (λ x. blob_at blobs keys fetched.1.next_url x.urls) q1
              ∙ u1,
          ap (λ x. x.requested) q1 ∙ u2 ∙ f2,
          q2,
        )
