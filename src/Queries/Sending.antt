-- ===== src/Queries/Sending.antt =====
-- With which token the queries of the pages are sent (Queries).
use go_grpc_microservices.Prelude.{
  ℕ, ◌≡◌, refl, String, true, false, Option, none, some, ◌⊎◌, List, [], ◌∷◌, All, ◌&&◌, arith, inl,
  inr, Bool-cases,
}
use go_grpc_microservices.Text.{is_empty, absent}
use go_grpc_microservices.Queries.{
  QueryCache, QueryFn, QueryOptions, Session, Query, Request, options, current_user, generations,
  generation, voices, voice_playback, get_voice_playback_url, visit, run_query, log_out,
  set_access_token, bearer_auth_interceptor, send, nothing, unauthorized,
}

module _ {D : Type 0} (cache : QueryCache D) where
  -- What happens on the pages.
  pub data Event : Type 0 where
    visited : ℕ → Query → D → Option D → Event
    token_set : Option String → Event
    logged_out : Event

  unfoldable pub step : Session cache → Event → Session cache
  step s (visited now q empty answer) = visit cache now q empty answer s
  step s (token_set token) = set_access_token cache token s
  step s logged_out = log_out cache s

  abbrev pub run : Session cache → List Event → Session cache
  run s [] = s
  run s (e ∷ es) = run (step s e) es

  abbrev HasToken : Option String → Type 0
  HasToken header = (token : String) × (header ≡ some token) × (is_empty token ≡ false)

  -- It is a request for the playback address of a voice.
  abbrev IsLookup : QueryFn → Type 0
  IsLookup f = (id : String) × (f ≡ send (get_voice_playback_url id)) × (is_empty id ≡ false)

  -- The header of a request has a token that is not empty; or it is none, and the request is one
  -- for the playback address of a voice.
  abbrev pub IsAuthorized : Option String × Request → Type 0
  IsAuthorized r = HasToken r.0 ⊎ ((r.0 ≡ none) × IsLookup (send r.1))

  enabled-present :
      (q : Query) (token : Option String)
      → (options q token).enabled ≡ true
      → (absent token ≡ false) ⊎ IsLookup (options q token).query_fn
  unfolding options
  enabled-present current_user token h = inl ground arith
  enabled-present generations token h = inl ground arith
  enabled-present (generation id) token h = inl ground arith
  enabled-present (voices user_id query) token h = inl ground arith
  enabled-present (voice_playback voice_id enabled) token h = inr (voice_id, refl, ground arith)

  header_of :
      (token : Option String)
      → HasToken (bearer_auth_interceptor token)
        ⊎ ((bearer_auth_interceptor token ≡ none) × (absent token ≡ true))
  unfolding bearer_auth_interceptor
  header_of none = inr (refl, refl)
  header_of (some token) = elim (Bool-cases (is_empty token)) [
    | inl e ↦ inr (rw e refl, e)
    | inr e ↦ inl (token, rw e refl, e)
  ]

  run_query-IsAuthorized :
      (now : ℕ) (o : QueryOptions) (empty : D) (answer : Option D) (s : Session cache) (f : QueryFn)
      → o.query_fn ≡ f
      → (absent s.access_token ≡ false) ⊎ IsLookup f
      → All IsAuthorized s.sent
      → All IsAuthorized (run_query cache now o empty answer s).sent
  unfolding run_query
  run_query-IsAuthorized now o empty answer s unauthorized e p h = rw (e, run_query) h
  run_query-IsAuthorized now o empty answer s nothing e p h = rw (e, run_query) h
  run_query-IsAuthorized now o empty answer s (send r) e p h =
      rw (e, run_query)
        (
          elim (header_of s.access_token) [
            | inl t ↦ inl t
            | inr (t, out) ↦ elim p [ inl present ↦ absurd cc | inr lookup ↦ inr (t, lookup) ]
          ],
          h,
        )

  visit-IsAuthorized :
      (now : ℕ) (q : Query) (empty : D) (answer : Option D) (s : Session cache)
      → All IsAuthorized s.sent
      → All IsAuthorized (visit cache now q empty answer s).sent
  unfolding visit
  visit-IsAuthorized now q empty answer s h =
      let o = options q s.access_token in
      elim (Bool-cases (o.enabled && cache.fetches now o.stale_time s.contents o.key)) [
        | inl e ↦ rw e (
            run_query-IsAuthorized now o empty answer s o.query_fn refl
              (enabled-present q s.access_token (ground arith)) h)
        | inr e ↦ rw e h
      ]

  step-IsAuthorized :
      (s : Session cache) (e : Event) → All IsAuthorized s.sent → All IsAuthorized (step s e).sent
  unfolding step log_out set_access_token
  step-IsAuthorized s (visited now q empty answer) h = visit-IsAuthorized now q empty answer s h
  step-IsAuthorized s (token_set token) h = h
  step-IsAuthorized s logged_out h = h

  -- Whatever is shown, logged in and out in whatever order, every request of these queries has a
  -- token in its header that is not empty, but for those that ask for the playback address of a
  -- voice: they have one, or none at all.
  pub run-IsAuthorized :
      (es : List Event) (s : Session cache)
      → All IsAuthorized s.sent
      → All IsAuthorized (run s es).sent
  run-IsAuthorized [] s h = h
  run-IsAuthorized (e ∷ es) s h = run-IsAuthorized es (step s e) (step-IsAuthorized s e h)
