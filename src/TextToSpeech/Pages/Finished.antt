-- ===== src/TextToSpeech/Pages/Finished.antt =====
-- The page of a generation from its first request to the preview of the audio
-- (web/src/modules/text-to-speech/views/text-to-speech-details-view.tsx over
-- hooks/use-generations.ts and web/src/lib/audio-fetch.ts).
use go_grpc_microservices.Prelude.{ℕ, ◌≡◌, ◌⊎◌, String, Bool, true, false, Option, none, some, ◌∷◌}
use go_grpc_microservices.Async.{Settled, resolved, rejected}
use go_grpc_microservices.ObjectStore.{ObjectStore}
use go_grpc_microservices.AudioCache.Entry.{Blob, entry_key, entry_voice_id}
use go_grpc_microservices.AudioCache.Session.{Browser}
use go_grpc_microservices.AudioFetch.{Page}
use go_grpc_microservices.AudioFetch.Serving.{blob_at, cached_blob}

-- The data and the failure of the query of the audio's address, as the page reads them.
unfoldable pub audio_query : (ℕ → String) → Option (Settled ℕ) → Option String × Bool
audio_query address none = (none, false)
audio_query address (some (resolved n)) = (some (address n), false)
audio_query address (some (rejected e)) = (none, true)

module _ (blobs : ObjectStore entry_key) (keys : ObjectStore entry_voice_id) where
  -- The blob is what the cache had for the key, and the network was not asked; or the cache had
  -- none, the blob is what came, and the network was asked once.
  abbrev pub IsFetched :
      Browser → String → String → Page blobs keys → Blob → Page blobs keys → Type 0
  IsFetched b url key p blob q =
      ((cached : Blob) × (cached_blob blobs keys b key p ≡ resolved (some cached))
        × (blob_at blobs keys p.next_url q.urls ≡ some cached)
        × (q.requested ≡ p.requested))
      ⊎ ((cached_blob blobs keys b key p ≡ resolved none)
          × (blob_at blobs keys p.next_url q.urls ≡ some blob)
          × (q.requested ≡ url ∷ p.requested))
