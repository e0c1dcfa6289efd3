-- ===== src/AuthActions/Dedup.antt =====
-- The map of refreshes under way is exactly a view of the calls under way.
use mathlib.Core.Option
use go_grpc_microservices.Prelude.{
  ℕ, ◌≡◌, ◌≢◌, ◌⊎◌, inl, inr, refl, String, Bool, Option, none, some, List, [], ◌∷◌, eq_iff,
  eq_refl, arith, Option-cases, In, All, All-of_In,
}
use go_grpc_microservices.JsMap.{map_get, map_get-set, map_get-delete}
use go_grpc_microservices.ObjectStore.{
  find, Distinct, find-without, without-Distinct, In-of_find, find_of_In,
}
use go_grpc_microservices.AuthActions.{
  RefreshCookie, Call, call_key, Server, cookie_token, joined, started, Reply, tokens, failure,
  register, refresh_start, finish_call, refresh_finish, logout, set_auth_cookies,
}

module _ (hash : String → String) (production : Bool) where
  -- What may happen, in any order and from any request.
  pub data Event : Type 0 where
    start : ℕ → Event
    finish : String → Reply → Event
    log_out : ℕ → Event
    log_in : ℕ → String → Event

  unfoldable pub step : Event → Server → Server
  step (start r) s = (refresh_start hash production r s).1
  step (finish key reply) s = (refresh_finish hash production key reply s).1
  step (log_out r) s = (logout hash production r s).1
  step (log_in r token) s = set_auth_cookies hash production r token s

  unfoldable pub run : List Event → Server → Server
  run [] s = s
  run (e ∷ es) s = run es (step e s)

  pub record IsTracked (s : Server) : Type 0 where
    -- no two calls under way share a key
    pub distinct : Distinct call_key s.calls
    -- the map holds, for each key, the request whose call is under way
    pub view :
        (k : String) → map_get k s.inflight ≡ Option.map (λ c. c.request) (find call_key k s.calls)
    -- a call is registered under the hash of the token that it sent
    pub hashed :
        (k : String) (c : Call) → find call_key k s.calls ≡ some c → hash c.refresh_token ≡ k

  register-IsTracked :
      (r : ℕ) (token : String) (s : Server)
      → IsTracked s
      → IsTracked (register hash production r token s).1
  unfolding register
  register-IsTracked r token s t = elim (Option-cases (map_get (hash token) s.inflight)) [
    | inr (o, e) ↦ rw (e, register) t
    | inl e ↦
        rw (e, register)
          (record {
            distinct = (ground (arith, t.view (hash token)), t.distinct);
            view = λ k. ground (arith, map_get-set (hash token) k r s.inflight, t.view k);
            hashed = λ k c h. ground (arith, eq_iff (hash token) k, t.hashed k c);
          })
  ]

  finish_call-IsTracked :
      (c : Call) (reply : Reply) (s : Server)
      → IsTracked s
      → IsTracked (finish_call hash production c reply s).1
  unfolding finish_call
  finish_call-IsTracked c (tokens a b) s t = record {
    distinct = without-Distinct call_key c.dedup_key s.calls t.distinct;
    view = λ k. ground (
      arith,
      map_get-delete c.dedup_key k s.inflight,
      find-without call_key c.dedup_key k s.calls,
      t.view k,
    );
    hashed = λ k d h. ground (arith, find-without call_key c.dedup_key k s.calls, t.hashed k d);
  }
  finish_call-IsTracked c failure s t = record {
    distinct = without-Distinct call_key c.dedup_key s.calls t.distinct;
    view = λ k. ground (
      arith,
      map_get-delete c.dedup_key k s.inflight,
      find-without call_key c.dedup_key k s.calls,
      t.view k,
    );
    hashed = λ k d h. ground (arith, find-without call_key c.dedup_key k s.calls, t.hashed k d);
  }

  step-IsTracked : (e : Event) (s : Server) → IsTracked s → IsTracked (step e s)
  unfolding step refresh_start refresh_finish logout set_auth_cookies
  step-IsTracked (start r) s t = elim (Option-cases (cookie_token (s.cookies r))) [
    | inl e ↦ rw (e, step) t
    | inr (token, e) ↦ rw (e, step) (register-IsTracked r token s t)
  ]
  step-IsTracked (finish key reply) s t = elim (Option-cases (find call_key key s.calls)) [
    | inl e ↦ rw (e, step) t
    | inr (c, e) ↦ rw (e, step) (finish_call-IsTracked c reply s t)
  ]
  step-IsTracked (log_out r) s t = record {
    distinct = t.distinct;
    view = t.view;
    hashed = t.hashed;
  }
  step-IsTracked (log_in r token) s t = record {
    distinct = t.distinct;
    view = t.view;
    hashed = t.hashed;
  }

  run-invariant : (es : List Event) (s : Server) → IsTracked s → IsTracked (run es s)
  unfolding run
  run-invariant [] s t = t
  run-invariant (e ∷ es) s t = run-invariant es (step e s) (step-IsTracked e s t)

  -- Whatever requests, answers, log-ins and log-outs come in whatever order, on a server that
  -- starts with no call under way: no two calls under way share a key, each is registered under
  -- the hash of its token, and the map of refreshes under way is exactly the view of those calls.
  pub run-IsTracked :
      (es : List Event) (cookies : ℕ → Option RefreshCookie)
      → IsTracked (run es (record { inflight = []; calls = []; cookies = cookies }))
  run-IsTracked es cookies =
      run-invariant es _
        (record { distinct = tt; view = λ k. unfold map_get in refl; hashed = λ k c h. cc })

  -- A request with a token joins the call under way that sent this token, if there is one, and
  -- changes nothing; it makes a call of its own only if there is none: provided that the hash
  -- has no collisions.
  pub refresh_start_dedup :
      (r : ℕ) (s : Server) (token : String)
      → ((a b : String) → hash a ≡ hash b → a ≡ b)
      → IsTracked s
      → cookie_token (s.cookies r) ≡ some token
      → ((c : Call) × In c s.calls
          × (c.refresh_token ≡ token)
          × (refresh_start hash production r s ≡ (joined c.request, s)))
        ⊎ (((refresh_start hash production r s).0 ≡ started)
            × All (λ c. c.refresh_token ≢ token) s.calls)
  unfolding refresh_start register
  refresh_start_dedup r s token injective t e =
      elim (Option-cases (find call_key (hash token) s.calls)) [
        | inl f ↦ inr (
          ground (arith, t.view (hash token)),
          All-of_In (λ c. c.refresh_token ≢ token) s.calls
              (λ c i q.
                let g = find_of_In call_key s.calls t.distinct i in
                cc (g, t.hashed c.dedup_key c g, q, f)),
        )
        | inr (c, f) ↦ inl (
          c,
          (In-of_find call_key (hash token) s.calls f).0,
          injective _ _ (t.hashed (hash token) c f),
          ground (arith, t.view (hash token)),
        )
      ]

  absent-finish :
      (key : String) (reply : Reply) (s : Server)
      → IsTracked s
      → map_get key (refresh_finish hash production key reply s).1.inflight ≡ none
  unfolding refresh_finish
  absent-finish key (tokens a b) s t = elim (Option-cases (find call_key key s.calls)) [
    | inl e ↦ ground (arith, t.view key)
    | inr (c, e) ↦ ground (
      arith,
      map_get-delete c.dedup_key key s.inflight,
      eq_refl key,
      (In-of_find call_key key s.calls e).1,
    )
  ]
  absent-finish key failure s t = elim (Option-cases (find call_key key s.calls)) [
    | inl e ↦ ground (arith, t.view key)
    | inr (c, e) ↦ ground (
      arith,
      map_get-delete c.dedup_key key s.inflight,
      eq_refl key,
      (In-of_find call_key key s.calls e).1,
    )
  ]

  -- No answer leaves a refresh stuck: once the call of a token is answered, whatever the answer,
  -- the next request with that token makes a call of its own.
  refresh_start_after_finish :
      (r : ℕ) (s : Server) (token : String) (reply : Reply)
      → let after = (refresh_finish hash production (hash token) reply s).1 in
        IsTracked s
        → cookie_token (after.cookies r) ≡ some token
        → (refresh_start hash production r after).0 ≡ started
  unfolding refresh_start register
  refresh_start_after_finish r s token reply t e =
      ground (arith, absent-finish (hash token) reply s t)
