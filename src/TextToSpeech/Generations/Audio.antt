-- ===== src/TextToSpeech/Generations/Audio.antt =====
-- The address of a generation's audio (web/src/modules/text-to-speech/hooks/use-generations.ts,
-- web/src/actions/generations.ts).
use go_grpc_microservices.Prelude.{
  ap, ◌≡◌, ◌↔◌, ◌≤◌, ◌<◌, String, true, false, Option, none, some, ◌∷◌, arith, leb, nat_eq, All,
  inl, inr,
}
use go_grpc_microservices.Async.{Settled, Settled-cases, resolved}
use go_grpc_microservices.Text.{
  is_empty, trim, strip_slashes, StartsWithout, drop_while-StartsWithout,
}
use go_grpc_microservices.ObjectStore.{ObjectStore}
use go_grpc_microservices.AudioCache.Entry.{Blob, entry_key, entry_voice_id, blob_size, recency}
use go_grpc_microservices.AudioCache.Eviction.{cache_cap_bytes}
use go_grpc_microservices.AudioCache.Session.{Browser}
use go_grpc_microservices.AudioCache.Session.Laws.{IsServing}
use go_grpc_microservices.AudioFetch.{FetchReply, body, Page, fetch_audio_with_cache}
use go_grpc_microservices.AudioFetch.Serving.{blob_at}
use go_grpc_microservices.AudioFetch.Again.{fetch_audio_again}
use go_grpc_microservices.AuthActions.{require_access_token}
use go_grpc_microservices.TextToSpeech.Generations.{
  get_generation_playback_url_action, generation_playback_url, generation_audio,
}

-- The key that the action signs.
abbrev pub normalized : String → String
normalized key = strip_slashes (trim key)

normalized-StartsWithout : (key : String) → StartsWithout (λ c. nat_eq c b'/') (normalized key)
unfolding strip_slashes
normalized-StartsWithout key = drop_while-StartsWithout (λ c. nat_eq c b'/') (trim key)

-- The action answers with an address exactly if the key is not blank, even without its leading
-- slashes, the session yields an access token, and S3 signs that key with an address that is not
-- empty; the key that is signed never begins with a slash.
pub action_iff :
    (token : Option String) (sign : String → Settled String) (key url : String)
    → ((get_generation_playback_url_action token sign key ≡ resolved url) ↔ (
        (is_empty (normalized key) ≡ false)
        × ((access_token : String) × (require_access_token token ≡ resolved access_token))
        × (sign (normalized key) ≡ resolved url)
        × (is_empty url ≡ false)))
      × StartsWithout (λ c. nat_eq c b'/') (normalized key)
unfolding get_generation_playback_url_action
action_iff token sign key url = elim (Settled-cases (require_access_token token)) [
  | inl (access_token, e) ↦ (
    (λ h. (ground arith, (access_token, e), ground arith, ground arith), λ h. ground arith),
    normalized-StartsWithout key,
  )
  | inr (message, e) ↦ ((λ h. ground arith, λ h. ground arith), normalized-StartsWithout key)
]

module _ (blobs : ObjectStore entry_key) (keys : ObjectStore entry_voice_id) where
  -- A visit whose address was found.
  pub visit_lem :
      (action : String → Settled String) (b c : Browser) (reply : FetchReply)
      (s3_object_key url : String) (p : Page blobs keys)
      → generation_playback_url action (trim s3_object_key) ≡ some (resolved url)
      → is_empty url ≡ false
      → generation_audio blobs keys action b c reply s3_object_key p ≡ (
        some (fetch_audio_with_cache blobs keys b c reply (some url) (trim s3_object_key) p).0,
        (fetch_audio_with_cache blobs keys b c reply (some url) (trim s3_object_key) p).1,
      )
  unfolding generation_audio
  visit_lem action b c reply k url p f u = ground arith

  -- The audio of a generation is downloaded once. If its address was found on both visits, under
  -- whatever addresses, the requests of the browser succeed, the database can be opened, the audio
  -- was not cached, fits the cap on its own and comes, and all that is cached was used before,
  -- then the second visit has an address that stands for the same audio, and the network was
  -- asked for it once.
  pub generation_audio_once :
      (first second : String → Settled String) (b c d e : Browser) (later : FetchReply)
      (s3_object_key url other : String) (blob : Blob) (p : Page blobs keys)
      → generation_playback_url first (trim s3_object_key) ≡ some (resolved url)
      → generation_playback_url second (trim s3_object_key) ≡ some (resolved other)
      → IsServing b
      → IsServing c
      → IsServing d
      → is_empty url ≡ false
      → is_empty other ≡ false
      → is_empty (trim s3_object_key) ≡ false
      → leb p.session.version 3 ≡ true
      → blobs.get p.session.audio (trim s3_object_key) ≡ none
      → blob_size blob ≤ cache_cap_bytes
      → All (λ f. recency f < c.now) (blobs.get_all p.session.audio)
      → let visit = generation_audio blobs keys first b c (body blob) s3_object_key p in
        let again = generation_audio blobs keys second d e later s3_object_key visit.1 in
        (visit.0 ≡ some (resolved p.next_url))
        × (again.0 ≡ some (resolved visit.1.next_url))
        × (blob_at blobs keys visit.1.next_url again.1.urls ≡ some blob)
        × (again.1.requested ≡ url ∷ p.requested)
  generation_audio_once first second b c d e later k url other blob p f g hb hc hd u o n v m fits
        earlier =
      let r =
        fetch_audio_again blobs keys b c d e later url other (trim k) blob p hb hc hd u o n v m fits
          earlier in
      rw (visit_lem first b c (body blob) k url p f u, visit_lem second d e later k other _ g o)
        (ap some r.0, ap some r.1, r.3, r.4)
