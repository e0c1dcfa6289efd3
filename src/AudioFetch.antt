-- ===== src/AudioFetch.antt =====
-- web/src/lib/audio-fetch.ts: audio from the cache or else from the network, as an object URL.
pub mod Serving
pub mod Again
use Prim.Native.String.{◌++◌}
use go_grpc_microservices.Prelude.{
  ℕ, suc, String, Bool, true, false, ◌||◌, Option, none, some, List, [], ◌∷◌, if◌then◌else◌,
}
use go_grpc_microservices.Async.{
  Settled, resolved, rejected, Async, resolve, throw, ◌>>=◌, ◌>>◌, try_catch, throw_if,
}
use go_grpc_microservices.Text.{is_empty, absent}
use go_grpc_microservices.ObjectStore.{ObjectStore}
use go_grpc_microservices.AudioCache.Entry.{Blob, entry_key, entry_voice_id}
use go_grpc_microservices.AudioCache.Session.{Browser, Session, get_cached_audio, cache_audio}

-- What `fetch(url)` brings: an exception, a status that is not ok with its text, a body that
-- cannot be read, or the blob.
pub data FetchReply : Type 0 where
  thrown : FetchReply
  not_ok : String → FetchReply
  unreadable : FetchReply
  body : Blob → FetchReply

-- An object URL and what it stands for.
pub record ObjectUrl : Type 0 where
  pub id : ℕ
  pub blob : Blob

module _ (blobs : ObjectStore entry_key) (keys : ObjectStore entry_voice_id) where
  pub record Page : Type 0 where
    pub session : Session blobs keys
    -- the object URLs that stand for something, newest first, and the next one
    pub urls : List ObjectUrl
    pub next_url : ℕ
    -- the addresses that were requested, newest first
    pub requested : List String

  -- A function of the audio cache on the page.
  abbrev pub on_session : {A : Type 0} → Async (Session blobs keys) A → Async Page A
  on_session m p = ((m p.session).0, record p { session = (m p.session).1 })

  -- `URL.createObjectURL`
  create_object_url : Blob → Async Page ℕ
  create_object_url blob p = (
    resolved p.next_url,
    record p { urls = record { id = p.next_url; blob = blob } ∷ p.urls; next_url = suc p.next_url },
  )

  -- `fetch`, the test on `response.ok`, and `response.blob()`; the message is that of a status
  -- which is not ok. The texts of the browser's own errors are not modelled.
  unfoldable pub download : String → String → FetchReply → Async Page Blob
  download message url thrown p =
      (rejected "network error", record p { requested = url ∷ p.requested })
  download message url (not_ok status) p =
      (rejected (message ++ status), record p { requested = url ∷ p.requested })
  download message url unreadable p =
      (rejected "unreadable body", record p { requested = url ∷ p.requested })
  download message url (body blob) p = (resolved blob, record p { requested = url ∷ p.requested })

  -- A miss of the cache: the audio is downloaded, cached, and made an object URL. A failure to
  -- cache it is swallowed.
  unfoldable pub fetch_missing : Browser → FetchReply → String → String → Async Page ℕ
  unfolding download create_object_url
  fetch_missing c reply url key = download "Failed to fetch audio: " url reply >>= (λ blob.
      try_catch (on_session (cache_audio blobs keys c key blob)) (λ _. resolve tt)
      >> create_object_url blob)

  abbrev text_of : Option String → String
  text_of none = ""
  text_of (some s) = s

  -- `fetchAudioWithCache`: `b` is what the browser answers to the read of the cache, `c` to the
  -- write.
  unfoldable pub fetch_audio_with_cache :
      Browser → Browser → FetchReply → Option String → String → Async Page ℕ
  unfolding create_object_url fetch_missing
  fetch_audio_with_cache b c reply url key =
      throw_if (absent url || is_empty key) "URL and key are required" (
        on_session (get_cached_audio blobs keys b key) >>= (λ cached. elim cached [
          | some blob ↦ create_object_url blob
          | none ↦ fetch_missing c reply (text_of url) key
        ]))

  -- `getCachedAudioObjectUrl`
  unfoldable pub get_cached_audio_object_url : Browser → String → Async Page (Option ℕ)
  unfolding create_object_url
  get_cached_audio_object_url b key =
      if is_empty key
      then resolve none
      else on_session (get_cached_audio blobs keys b key) >>= (λ cached. elim cached [
        | some blob ↦ create_object_url blob >>= (λ url. resolve (some url))
        | none ↦ resolve none
      ])

  -- `prefetchAudio`
  unfoldable pub prefetch_audio :
      Browser → Browser → FetchReply → String → String → Async Page (Unit {0})
  unfolding download
  prefetch_audio b c reply url key =
      if is_empty url || is_empty key
      then resolve tt
      else on_session (get_cached_audio blobs keys b key) >>= (λ cached. elim cached [
        | some blob ↦ resolve tt
        | none ↦
            try_catch
              (download "Failed to prefetch audio: " url reply
                >>= (λ blob. on_session (cache_audio blobs keys c key blob)))
              (λ _. resolve tt)
      ])
