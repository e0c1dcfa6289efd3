-- ===== src/TextToSpeech/Generations.antt =====
-- The generations of a user: web/src/modules/text-to-speech/hooks/use-generations.ts and the action
-- that signs the address of their audio, web/src/actions/generations.ts. What the generation
-- service answers to each request, and what S3 signs, are inputs.
pub mod Polling
pub mod Audio
use Prim.Native.Char.{code}
use Prim.Native.String
use go_grpc_microservices.Prelude.{
  ℕ, String, Bool, true, false, ◌&&◌, ◌||◌, Option, none, some, List, [], ◌∷◌, nat_eq, leb, ◌+◌,
  if◌then◌else◌,
}
use go_grpc_microservices.Async.{Settled, resolved, rejected, Async, ◌>>=◌}
use go_grpc_microservices.Text.{is_empty, trim, strip_slashes}
use go_grpc_microservices.ObjectStore.{ObjectStore}
use go_grpc_microservices.AudioCache.Entry.{entry_key, entry_voice_id}
use go_grpc_microservices.AudioCache.Session.{Browser}
use go_grpc_microservices.AudioFetch.{FetchReply, Page, fetch_audio_with_cache}
use go_grpc_microservices.AuthActions.{require_access_token}

-- `GenerationJobStatus`
pub data Status : Type 0 where
  unspecified queued processing completed failed : Status

-- What the pages read of a `GetGenerationResponse`.
pub record GenerationDetail : Type 0 where
  pub status : Status
  pub text : String
  pub voice_id : String
  pub voice_name : String
  pub s3_object_key : String
  pub error_message : String
  pub temperature : ℕ
  pub exaggeration : ℕ
  pub cfg_weight : ℕ

abbrev pub is_active : Status → Bool
is_active queued = true
is_active processing = true
is_active _ = false

-- `refetchInterval` of `useGeneration`, in milliseconds; `none` is `false`.
unfoldable pub refetch_interval : Option GenerationDetail → Option ℕ
refetch_interval none = none
refetch_interval (some d) = if is_active d.status then some 2000 else none

-- One answer of the service: it becomes the query's data, a failure leaves the data as it was.
abbrev pub after_answer :
    Option GenerationDetail → Option GenerationDetail → Option GenerationDetail
after_answer held none = held
after_answer held (some d) = some d

-- `useGeneration` over the answers that the service would give, one after the other: the data in
-- the end, and the answers that were not asked for any more.
unfoldable pub poll :
    Option GenerationDetail
    → List (Option GenerationDetail)
    → Option GenerationDetail × List (Option GenerationDetail)
poll held [] = (held, [])
poll held (a ∷ rest) =
    let more = poll (after_answer held a) rest in
    elim (refetch_interval (after_answer held a)) [
      | none ↦ (after_answer held a, rest)
      | some ms ↦ more
    ]

-- `getGenerationPlaybackUrlAction`: the answer of `refreshAccessTokenAction`, and what S3 signs.
unfoldable pub get_generation_playback_url_action :
    Option String → (String → Settled String) → String → Settled String
unfolding require_access_token
get_generation_playback_url_action token get_signed_audio_url s3_object_key =
    let normalized_key = strip_slashes (trim s3_object_key) in
    if is_empty normalized_key
    then rejected "s3ObjectKey is required"
    else elim (require_access_token token) [
      | rejected e ↦ rejected e
      | resolved access_token ↦ elim (get_signed_audio_url normalized_key) [
        | rejected e ↦ rejected e
        | resolved url ↦
            if is_empty url then rejected "Failed to sign generation audio url" else resolved url
      ]
    ]

-- A code point, but a letter of ASCII small.
abbrev small : ℕ → ℕ
small c = if leb b'A' c && leb c b'Z' then c + 32 else c

-- The text begins so, in whatever case.
abbrev begins_ignoring_case : List ℕ → String → Bool
begins_ignoring_case [] s = true
begins_ignoring_case (p ∷ ps) String.[] = false
begins_ignoring_case (p ∷ ps) (String.◌∷◌ c s) =
    nat_eq (small (code c)) p && begins_ignoring_case ps s

-- `/^https?:\/\//i.test(key)`
unfoldable pub is_http : String → Bool
is_http s =
    begins_ignoring_case (b'h' ∷ b't' ∷ b't' ∷ b'p' ∷ b':' ∷ b'/' ∷ b'/' ∷ []) s
    || begins_ignoring_case (b'h' ∷ b't' ∷ b't' ∷ b'p' ∷ b's' ∷ b':' ∷ b'/' ∷ b'/' ∷ []) s

-- `useGenerationPlaybackUrl`, with what the action would answer; `none` if the query is disabled.
unfoldable pub generation_playback_url :
    (String → Settled String) → String → Option (Settled String)
unfolding is_http
generation_playback_url action s3_object_key =
    let normalized_key = trim s3_object_key in
    if is_empty normalized_key
    then none
    else some (if is_http normalized_key then resolved normalized_key else action normalized_key)

module _ (blobs : ObjectStore entry_key) (keys : ObjectStore entry_voice_id) where
  -- `useGenerationPlaybackUrlWithCache`: the address of a generation's audio on the page, or `none`
  -- where the query stays disabled.
  unfoldable pub generation_audio :
      (String → Settled String)
      → Browser
      → Browser
      → FetchReply
      → String
      → Page blobs keys
      → Option (Settled ℕ) × Page blobs keys
  generation_audio action b c reply s3_object_key p =
      let normalized_key = trim s3_object_key in
      elim (generation_playback_url action normalized_key) [
        | none ↦ (none, p)
        | some (rejected e) ↦ (none, p)
        | some (resolved url) ↦
            if is_empty url
            then (none, p)
            else let r = fetch_audio_with_cache blobs keys b c reply (some url) normalized_key p in
              (some r.0, r.1)
      ]
