-- ===== src/Voices/Playback.antt =====
-- The playback address of a voice: web/src/modules/voices/hooks/use-voice-playback.ts. The query
-- client, which caches the answers of the service, is a parameter.
use go_grpc_microservices.Prelude.{
  ℕ, ◌+◌, ◌*◌, ◌/◌, ◌<◌, ◌≤◌, ◌≡◌, ◌⊎◌, inl, inr, refl, String, Bool, true, false, Option, none,
  some, ltb, if◌then◌else◌, arith, Bool-cases,
}
use go_grpc_microservices.Async.{Settled, resolved, rejected}
use go_grpc_microservices.Text.{is_empty, trim, trim_idem}

pub record VoicePlaybackResult : Type 0 where
  pub url : String
  pub expires_at_unix : ℕ
  pub provider_key : String

abbrev playback_refresh_buffer_seconds : ℕ
playback_refresh_buffer_seconds = 20

-- `staleTime`, in milliseconds
abbrev pub stale_time : ℕ
stale_time = 60 * 1000

-- `isPlaybackFresh`, with `Date.now()` in milliseconds
is_playback_fresh : ℕ → Option VoicePlaybackResult → Bool
is_playback_fresh now none = false
is_playback_fresh now (some playback) =
    ltb (now / 1000 + playback_refresh_buffer_seconds) playback.expires_at_unix

-- `requestVoicePlayback`, from the service's answer on; `none` is an exception.
request_voice_playback : Option VoicePlaybackResult → Settled VoicePlaybackResult
request_voice_playback none = rejected "request failed"
request_voice_playback (some response) =
    if is_empty (trim response.provider_key)
    then rejected "Missing provider key for voice playback"
    else resolved (record response { provider_key = trim response.provider_key })

-- What the query client has under the key: the data, and when it was fetched.
pub record Query : Type 0 where
  pub data_of : VoicePlaybackResult
  pub fetched_at : ℕ

abbrev query_data : Option Query → Option VoicePlaybackResult
query_data none = none
query_data (some q) = some q.data_of

-- The answer of a request is stored under the key, a failure leaves what is there.
unfoldable pub store_answer :
    ℕ → Settled VoicePlaybackResult → Option Query → Settled VoicePlaybackResult × Option Query
store_answer now (resolved p) q = (resolved p, some (record { data_of = p; fetched_at = now }))
store_answer now (rejected e) q = (rejected e, q)

-- What TanStack Query documents of `fetchQuery` for one key: data younger than the stale time is
-- answered as it is; else the query function runs, and its answer is kept with its time.
pub record QueryClient : Type 0 where
  -- now, the stale time, and what the query function would settle with
  pub fetch_query :
      ℕ
      → ℕ
      → Settled VoicePlaybackResult
      → Option Query
      → Settled VoicePlaybackResult × Option Query
  pub fetch_missing :
      (now stale : ℕ) (a : Settled VoicePlaybackResult)
      → fetch_query now stale a none ≡ store_answer now a none
  pub fetch_young :
      (now stale : ℕ) (a : Settled VoicePlaybackResult) (q : Query)
      → now < q.fetched_at + stale
      → fetch_query now stale a (some q) ≡ (resolved q.data_of, some q)
  pub fetch_old :
      (now stale : ℕ) (a : Settled VoicePlaybackResult) (q : Query)
      → q.fetched_at + stale ≤ now
      → fetch_query now stale a (some q) ≡ store_answer now a (some q)

abbrev simple_fetch :
    ℕ → ℕ → Settled VoicePlaybackResult → Option Query → Settled VoicePlaybackResult × Option Query
simple_fetch now stale a none = store_answer now a none
simple_fetch now stale a (some q) =
    if ltb now (q.fetched_at + stale)
    then (resolved q.data_of, some q)
    else store_answer now a (some q)

pub simple_fetch_young :
    (now stale : ℕ) (a : Settled VoicePlaybackResult) (q : Query)
    → now < q.fetched_at + stale
    → simple_fetch now stale a (some q) ≡ (resolved q.data_of, some q)
simple_fetch_young now stale a q h = ground arith

pub simple_fetch_old :
    (now stale : ℕ) (a : Settled VoicePlaybackResult) (q : Query)
    → q.fetched_at + stale ≤ now
    → simple_fetch now stale a (some q) ≡ store_answer now a (some q)
simple_fetch_old now stale a q h = ground arith

-- The interface can be met.
abbrev pub simple_client : QueryClient
simple_client = record {
  fetch_query = simple_fetch;
  fetch_missing = λ now stale a. refl;
  fetch_young = simple_fetch_young;
  fetch_old = simple_fetch_old;
}

-- A provider key that is trimmed and not empty.
abbrev pub IsPlayable : VoicePlaybackResult → Type 0
IsPlayable p = (is_empty p.provider_key ≡ false) × (trim p.provider_key ≡ p.provider_key)

-- What is cached was the answer of a request.
abbrev IsPlayableQuery : Option Query → Type 0
IsPlayableQuery none = Unit
IsPlayableQuery (some q) = IsPlayable q.data_of

abbrev IsPlayableOutcome : Settled VoicePlaybackResult → Type 0
IsPlayableOutcome (resolved p) = IsPlayable p
IsPlayableOutcome (rejected e) = Unit

request-IsPlayable :
    (response : Option VoicePlaybackResult) → IsPlayableOutcome (request_voice_playback response)
unfolding request_voice_playback
request-IsPlayable none = tt
request-IsPlayable (some r) = elim (Bool-cases (is_empty (trim r.provider_key))) [
  | inl e ↦ rw e tt
  | inr e ↦ rw e (e, trim_idem r.provider_key)
]

store-IsPlayable :
    (now : ℕ) (a : Settled VoicePlaybackResult) (q : Option Query)
    → IsPlayableOutcome a
    → IsPlayableQuery q
    → IsPlayableOutcome (store_answer now a q).0 × IsPlayableQuery (store_answer now a q).1
unfolding store_answer
store-IsPlayable now (resolved p) q h k = (h, h)
store-IsPlayable now (rejected e) q h k = (tt, k)

module _ (client : QueryClient) where
  -- `getVoicePlayback`
  unfoldable pub get_voice_playback :
      ℕ → Option VoicePlaybackResult → Option Query → Settled VoicePlaybackResult × Option Query
  unfolding is_playback_fresh request_voice_playback
  get_voice_playback now response none =
      client.fetch_query now stale_time (request_voice_playback response) none
  get_voice_playback now response (some q) =
      if is_playback_fresh now (some q.data_of)
      then (resolved q.data_of, some q)
      else client.fetch_query now stale_time (request_voice_playback response) (some q)

  -- Whatever the service answers, a voice resolves only to a playback with a provider key that is
  -- trimmed and not empty, and only such are cached, if only such were.
  get_voice_playback-IsPlayable :
      (now : ℕ) (response : Option VoicePlaybackResult) (q : Option Query)
      → IsPlayableQuery q
      → IsPlayableOutcome (get_voice_playback now response q).0
        × IsPlayableQuery (get_voice_playback now response q).1
  unfolding get_voice_playback
  get_voice_playback-IsPlayable now response none h =
      rw (client.fetch_missing now stale_time (request_voice_playback response)) (
        store-IsPlayable now (request_voice_playback response) none (request-IsPlayable response)
          tt)
  get_voice_playback-IsPlayable now response (some q) h =
      elim (Bool-cases (is_playback_fresh now (some q.data_of))) [
        | inl e ↦ rw (e, get_voice_playback) (h, h)
        | inr e ↦
            rw (e, get_voice_playback) (fetched (Bool-cases (ltb now (q.fetched_at + stale_time))))
      ]
    where
      fetched :
          ((ltb now (q.fetched_at + stale_time) ≡ true)
            ⊎ (ltb now (q.fetched_at + stale_time) ≡ false))
          → let r = client.fetch_query now stale_time (request_voice_playback response) (some q) in
            IsPlayableOutcome r.0 × IsPlayableQuery r.1
      fetched (inl f) =
          rw (client.fetch_young now stale_time (request_voice_playback response) q (ground arith))
            (h, h)
      fetched (inr f) =
          rw (client.fetch_old now stale_time (request_voice_playback response) q (ground arith)) (
            store-IsPlayable now (request_voice_playback response) (some q)
              (request-IsPlayable response) h)

  -- The expiry does not reach the query client: a playback that was fetched less than a minute ago
  -- is answered without a request, however long its address has been expired.
  get_voice_playback_stale :
      (now : ℕ) (response : Option VoicePlaybackResult) (q : Query)
      → now < q.fetched_at + stale_time
      → get_voice_playback now response (some q) ≡ (resolved q.data_of, some q)
  unfolding get_voice_playback
  get_voice_playback_stale now response q h =
      ground (arith, client.fetch_young now stale_time (request_voice_playback response) q h)
