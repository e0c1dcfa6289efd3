-- ===== src/Queries.antt =====
-- What the pages ask the services for, and with which token: the queries of
-- web/src/hooks/use-current-user.ts, web/src/modules/voices/hooks/use-voices.ts,
-- web/src/modules/voices/hooks/use-voice-playback.ts and
-- web/src/modules/text-to-speech/hooks/use-generations.ts, the interceptor of web/src/lib/rpc.ts,
-- and what a log-in and a log-out make of the answers that are kept. TanStack Query, which keeps
-- them, is a parameter.
pub mod Clients
pub mod Sending
pub mod Users
use go_grpc_microservices.Prelude.{
  ℕ, ◌+◌, ◌*◌, ◌<◌, ◌≡◌, String, Bool, true, false, not, ◌&&◌, Option, none, some, List, [], ◌∷◌,
  ◌==◌, if◌then◌else◌,
}
use go_grpc_microservices.Text.{is_empty, absent}
use go_grpc_microservices.Voices.Mutations.{text_or}

-- `queryKey`: the name, the texts after it, and `!!accessToken`, which stands last in the keys that
-- have it; in one that has not it is false here
pub record QueryKey : Type 0 where
  pub name : String
  pub texts : List String
  pub signed_in : Bool

pub data Request : Type 0 where
  get_current_user : Request
  list_generations : Request
  get_generation : String → Request
  get_all_voices : String → String → Request
  get_voice_playback_url : String → Request

-- What `queryFn` does: it sends a request, answers with nothing (`null` or `[]`), or throws.
pub data QueryFn : Type 0 where
  send : Request → QueryFn
  nothing : QueryFn
  unauthorized : QueryFn

-- The options of `useQuery`. The stale time is in milliseconds.
pub record QueryOptions : Type 0 where
  pub key : QueryKey
  pub enabled : Bool
  pub stale_time : ℕ
  pub query_fn : QueryFn

-- `!!accessToken`
abbrev is_present : Option String → Bool
is_present token = not (absent token)

-- `useCurrentUser`
unfoldable pub use_current_user : Option String → QueryOptions
use_current_user token = record {
  key = record { name = "currentUser"; texts = []; signed_in = is_present token };
  enabled = is_present token;
  stale_time = 5 * 60 * 1000;
  query_fn = if absent token then nothing else send get_current_user;
}

-- `useGenerations`
unfoldable pub use_generations : Option String → QueryOptions
use_generations token = record {
  key = record { name = "generations"; texts = []; signed_in = is_present token };
  enabled = is_present token;
  stale_time = 30 * 1000;
  query_fn = if absent token then nothing else send list_generations;
}

-- `useGeneration`
use_generation : String → Option String → QueryOptions
use_generation id token = record {
  key = record { name = "generation"; texts = id ∷ []; signed_in = is_present token };
  enabled = is_present token && not (is_empty id);
  stale_time = 30 * 1000;
  query_fn = if absent token then unauthorized else send (get_generation id);
}

-- `useVoices`
use_voices : String → String → Option String → QueryOptions
use_voices user_id query token = record {
  key = record { name = "voices"; texts = user_id ∷ query ∷ []; signed_in = is_present token };
  enabled = not (is_empty user_id) && is_present token;
  stale_time = 60 * 1000;
  query_fn =
      if is_empty user_id
      then nothing
      else if absent token
      then nothing
      else send (get_all_voices user_id query);
}

-- `useVoicePlaybackQuery`, for `enabled`: its function sends its request whatever the token is.
use_voice_playback_query : String → Bool → QueryOptions
use_voice_playback_query voice_id enabled = record {
  key = record { name = "voice-playback"; texts = voice_id ∷ []; signed_in = false };
  enabled = enabled && not (is_empty voice_id);
  stale_time = 60 * 1000;
  query_fn = send (get_voice_playback_url voice_id);
}

-- The queries of these hooks.
pub data Query : Type 0 where
  current_user : Query
  generations : Query
  generation : String → Query
  voices : String → String → Query
  voice_playback : String → Bool → Query

unfoldable pub options : Query → Option String → QueryOptions
unfolding use_current_user use_generations use_generation use_voices use_voice_playback_query
options current_user token = use_current_user token
options generations token = use_generations token
options (generation id) token = use_generation id token
options (voices user_id query) token = use_voices user_id query token
options (voice_playback voice_id enabled) token = use_voice_playback_query voice_id enabled

-- The token of the header that `bearerAuthInterceptor` sets, if it sets one
unfoldable pub bearer_auth_interceptor : Option String → Option String
bearer_auth_interceptor token = if absent token then none else token

-- What TanStack Query documents of its cache, for answers of the type `D`: data that was fetched
-- is shown under its key and not fetched again before its stale time is over; and what is removed
-- is gone, all else stays. A failed query leaves what was there.
pub record QueryCache (D : Type 0) : Type 1 where
  pub Contents : Type 0
  pub shown : Contents → QueryKey → Option D
  -- whether a component that is shown now fetches, for the stale time
  pub fetches : ℕ → ℕ → Contents → QueryKey → Bool
  -- the data that was fetched now
  pub keep : ℕ → QueryKey → D → Contents → Contents
  -- `removeQueries`, for all keys with the name
  pub remove : String → Contents → Contents
  pub shown-keep :
      (now : ℕ) (k : QueryKey) (d : D) (c : Contents) → shown (keep now k d c) k ≡ some d
  pub fetches-keep :
      (now later stale : ℕ) (k : QueryKey) (d : D) (c : Contents)
      → later < now + stale
      → fetches later stale (keep now k d c) k ≡ false
  pub fetches_of_none :
      (now stale : ℕ) (c : Contents) (k : QueryKey)
      → shown c k ≡ none
      → fetches now stale c k ≡ true
  pub shown-remove :
      (name : String) (c : Contents) (k : QueryKey)
      → shown (remove name c) k ≡ (if k.name == name then none else shown c k)
  pub fetches-remove :
      (name : String) (now stale : ℕ) (c : Contents) (k : QueryKey)
      → (k.name == name) ≡ false
      → fetches now stale (remove name c) k ≡ fetches now stale c k

module _ {D : Type 0} (cache : QueryCache D) where
  -- The browser's token, the answers kept, and the requests sent with the token of their header,
  -- newest first.
  pub record Session : Type 0 where
    pub access_token : Option String
    pub contents : cache.Contents
    pub sent : List (Option String × Request)

  -- A query's function runs, for what the service answers in the end and for what `nothing` is.
  unfoldable pub run_query : ℕ → QueryOptions → D → Option D → Session → Session
  unfolding bearer_auth_interceptor
  run_query now o empty answer s = elim o.query_fn [
    | unauthorized ↦ s
    | nothing ↦ record s { contents = cache.keep now o.key empty s.contents }
    | send r ↦ record s {
      sent = (bearer_auth_interceptor s.access_token, r) ∷ s.sent;
      contents = elim answer [ none ↦ s.contents | some d ↦ cache.keep now o.key d s.contents ];
    }
  ]

  -- A component with the query is shown.
  unfoldable pub visit : ℕ → Query → D → Option D → Session → Session
  unfolding options run_query
  visit now q empty answer s =
      let o = options q s.access_token in
      if o.enabled && cache.fetches now o.stale_time s.contents o.key
      then run_query now o empty answer s
      else s

  -- `data` of the query
  unfoldable pub data_of : Query → Session → Option D
  unfolding options
  data_of q s = cache.shown s.contents (options q s.access_token).key

  -- `setAccessToken`, after a log-in or a refresh
  unfoldable pub set_access_token : Option String → Session → Session
  set_access_token token s = record s { access_token = token }

  -- `useLogout`, after the server action
  unfoldable pub log_out : Session → Session
  unfolding set_access_token
  log_out s =
      let t = set_access_token none s in
      record t { contents = cache.remove "currentUser" t.contents }
