-- ===== src/AudioFetch/Again.antt =====
-- Audio that came once is served again without the network (web/src/lib/audio-fetch.ts).
use go_grpc_microservices.Prelude.{
  ◌≤◌, ◌<◌, ◌≡◌, sym, ap, ◌∙◌, subst, String, true, false, none, some, ◌∷◌, arith, leb, All,
}
use go_grpc_microservices.Async.{resolved}
use go_grpc_microservices.Text.{is_empty}
use go_grpc_microservices.ObjectStore.{ObjectStore}
use go_grpc_microservices.AudioCache.Entry.{Blob, entry_key, entry_voice_id, blob_size, recency}
use go_grpc_microservices.AudioCache.Eviction.{cache_cap_bytes}
use go_grpc_microservices.AudioCache.Session.{
  Browser, Session, init_db, get_cached_audio, cache_audio,
}
use go_grpc_microservices.AudioCache.Session.Laws.{IsServing}
use go_grpc_microservices.AudioCache.Session.Entries.{
  get_cached_audio-cache, connected-cache_audio, providers-cache_audio,
}
use go_grpc_microservices.AudioFetch.{
  FetchReply, body, Page, fetch_missing, fetch_audio_with_cache, prefetch_audio,
}
use go_grpc_microservices.AudioFetch.Serving.{
  blob_at, cached_blob, fetch_audio_hit, fetch_audio_miss,
}

module _ (blobs : ObjectStore entry_key) (keys : ObjectStore entry_voice_id) where
  -- A read of a key that is not cached opens the database and changes no entry.
  pub read_missing :
      (b : Browser) (key : String) (s : Session blobs keys)
      → IsServing b
      → leb s.version 3 ≡ true
      → blobs.get s.audio key ≡ none
      → ((get_cached_audio blobs keys b key s).0 ≡ resolved none)
        × ((get_cached_audio blobs keys b key s).1.audio ≡ s.audio)
        × (leb (get_cached_audio blobs keys b key s).1.version 3 ≡ true)
  unfolding get_cached_audio init_db
  read_missing b key s hb v h = (ground arith, ground arith, ground arith)

  -- What was prefetched is served without a further request: if the requests of the browser
  -- succeed, the database can be opened, the audio was not cached, fits the cap on its own and
  -- comes, and all that is cached was used before, then a later fetch of the key resolves to an
  -- address that stands for that audio, and the network was asked once.
  fetch_prefetched :
      (b c d e : Browser) (later : FetchReply) (url other key : String) (blob : Blob)
      (p : Page blobs keys)
      → IsServing b
      → IsServing c
      → IsServing d
      → is_empty url ≡ false
      → is_empty other ≡ false
      → is_empty key ≡ false
      → leb p.session.version 3 ≡ true
      → blobs.get p.session.audio key ≡ none
      → blob_size blob ≤ cache_cap_bytes
      → All (λ f. recency f < c.now) (blobs.get_all p.session.audio)
      → let after = (prefetch_audio blobs keys b c (body blob) url key p).1 in
        let r = fetch_audio_with_cache blobs keys d e later (some other) key after in
        (r.0 ≡ resolved after.next_url)
        × (blob_at blobs keys after.next_url r.1.urls ≡ some blob)
        × (r.1.requested ≡ url ∷ p.requested)
  unfolding prefetch_audio
  fetch_prefetched b c d e later url other key blob p hb hc hd u o k v n fits earlier =
      let (missed, same, version) = read_missing b key p.session hb v n in
      let opened = (get_cached_audio blobs keys b key p.session).1 in
      let read =
        get_cached_audio-cache blobs keys c d key blob opened hc hd k version fits
          (subst (λ a. All (λ f. recency f < c.now) (blobs.get_all a)) (sym same) earlier) in
      let after = (prefetch_audio blobs keys b c (body blob) url key p).1 in
      let (address, served, asked) =
        fetch_audio_hit blobs keys d e later (some other) key blob after o k (ground arith) in
      (address, served, ground arith)

  -- What a miss leaves of the session, when the audio comes.
  missed_session :
      (b c : Browser) (url key : String) (blob : Blob) (p : Page blobs keys)
      → is_empty url ≡ false
      → is_empty key ≡ false
      → cached_blob blobs keys b key p ≡ resolved none
      → (fetch_audio_with_cache blobs keys b c (body blob) (some url) key p).1.session
        ≡ (cache_audio blobs keys c key blob (get_cached_audio blobs keys b key p.session).1).1
  unfolding fetch_audio_with_cache fetch_missing
  missed_session b c url key blob p u k e = ground arith

  -- Audio that was downloaded is in the cache afterwards, and the database is open.
  pub fetch_audio_caches :
      (b c d : Browser) (url key : String) (blob : Blob) (p : Page blobs keys)
      → IsServing b
      → IsServing c
      → IsServing d
      → is_empty url ≡ false
      → is_empty key ≡ false
      → leb p.session.version 3 ≡ true
      → blobs.get p.session.audio key ≡ none
      → blob_size blob ≤ cache_cap_bytes
      → All (λ f. recency f < c.now) (blobs.get_all p.session.audio)
      → let q = (fetch_audio_with_cache blobs keys b c (body blob) (some url) key p).1 in
        (cached_blob blobs keys d key q ≡ resolved (some blob))
        × (q.session.connected ≡ true)
        × (q.session.providers ≡ p.session.providers)
  fetch_audio_caches b c d url key blob p hb hc hd u k v n fits earlier =
      let (missed, same, version) = read_missing b key p.session hb v n in
      let opened = (get_cached_audio blobs keys b key p.session).1 in
      let read =
        get_cached_audio-cache blobs keys c d key blob opened hc hd k version fits
          (subst (λ a. All (λ f. recency f < c.now) (blobs.get_all a)) (sym same) earlier) in
      let left = missed_session b c url key blob p u k missed in
      let open_after = connected-cache_audio blobs keys c key blob opened hc k version in
      let kept = (providers-cache_audio blobs keys c key blob opened).0 in
      let kept_before = (providers-cache_audio blobs keys b key blob p.session).1 in
      (
        ap (λ s. (get_cached_audio blobs keys d key s).0) left ∙ read,
        ap (λ s. s.connected) left ∙ open_after,
        ap (λ s. s.providers) left ∙ kept ∙ kept_before,
      )

  -- Audio that was downloaded once is served from the cache the next time: if the requests of the
  -- browser succeed, the database can be opened, the audio was not cached, fits the cap on its own
  -- and comes, and all that is cached was used before, then a second fetch of the key resolves to
  -- an address that stands for the same audio, and the network was asked once.
  pub fetch_audio_again :
      (b c d e : Browser) (later : FetchReply) (url other key : String) (blob : Blob)
      (p : Page blobs keys)
      → IsServing b
      → IsServing c
      → IsServing d
      → is_empty url ≡ false
      → is_empty other ≡ false
      → is_empty key ≡ false
      → leb p.session.version 3 ≡ true
      → blobs.get p.session.audio key ≡ none
      → blob_size blob ≤ cache_cap_bytes
      → All (λ f. recency f < c.now) (blobs.get_all p.session.audio)
      → let first = fetch_audio_with_cache blobs keys b c (body blob) (some url) key p in
        let again = fetch_audio_with_cache blobs keys d e later (some other) key first.1 in
        (first.0 ≡ resolved p.next_url)
        × (again.0 ≡ resolved first.1.next_url)
        × (blob_at blobs keys p.next_url first.1.urls ≡ some blob)
        × (blob_at blobs keys first.1.next_url again.1.urls ≡ some blob)
        × (again.1.requested ≡ url ∷ p.requested)
  unfolding fetch_audio_with_cache fetch_missing
  fetch_audio_again b c d e later url other key blob p hb hc hd u o k v n fits earlier =
      let (missed, same, version) = read_missing b key p.session hb v n in
      let opened = (get_cached_audio blobs keys b key p.session).1 in
      let read =
        get_cached_audio-cache blobs keys c d key blob opened hc hd k version fits
          (subst (λ a. All (λ f. recency f < c.now) (blobs.get_all a)) (sym same) earlier) in
      let first = fetch_audio_with_cache blobs keys b c (body blob) (some url) key p in
      let (address, kept, once) = fetch_audio_miss blobs keys b c url key blob p u k missed in
      let (again, served, asked) =
        fetch_audio_hit blobs keys d e later (some other) key blob first.1 o k (ground arith) in
      (address, again, kept, served, ground arith)
