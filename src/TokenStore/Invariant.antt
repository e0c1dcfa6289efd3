-- ===== src/TokenStore/Invariant.antt =====
-- What holds of the token store after any events: one refresh at most, one timer at most.
use go_grpc_microservices.Prelude.{
  ℕ, ◌-◌, ◌≡◌, ◌⊎◌, inl, inr, refl, String, Bool, true, false, Option, none, some, List, [], ◌∷◌,
  nat_eq, if◌then◌else◌, arith, Bool-cases, Option-cases,
}
use go_grpc_microservices.Text.{is_empty}
use go_grpc_microservices.TokenStore.{
  TokenStore, init, same_token, cancel_refresh_timer, due_time, parse_jwt_exp, schedule, set, Event,
  set_token, refresh, settled, failed, timer_fires, cancel, set_loaded, subscribe, unsubscribe,
  refresh_access_token_singleton, fire, step, run,
}

-- The armed timeouts are at most the one that `refreshTimer` names, and one is armed only while
-- there is a token to renew.
abbrev pub IsNamed : TokenStore → Type 0
IsNamed s =
    (s.armed ≡ [])
    ⊎ ((due id : ℕ) × (token : String) × (s.armed ≡ record { id = id; due = due } ∷ [])
        × (s.refresh_timer ≡ some id)
        × (s.access_token ≡ some token)
        × (is_empty token ≡ false))

-- The calls that have not settled are the one under way.
abbrev pub IsSingle : TokenStore → Type 0
IsSingle s = s.pending ≡ (if s.in_flight then 1 else 0)

-- Cancelling leaves no timeout armed, also where other fields have changed first.
pub cancel-armed :
    (s t : TokenStore)
    → t.refresh_timer ≡ s.refresh_timer
    → t.armed ≡ s.armed
    → IsNamed s
    → (cancel_refresh_timer t).armed ≡ []
unfolding cancel_refresh_timer
cancel-armed s t p q (inl e) = ground arith
cancel-armed s t p q (inr (due, id, token, e, f, g, h)) = ground arith

IsNamed-if : (b : Bool) (s t : TokenStore) → IsNamed s → IsNamed t → IsNamed (if b then s else t)
IsNamed-if true s t h k = h
IsNamed-if false s t h k = k

refresh-IsNamed : (s : TokenStore) → IsNamed s → IsNamed (refresh_access_token_singleton s)
unfolding refresh_access_token_singleton
refresh-IsNamed s h = IsNamed-if s.in_flight _ _ h (inl (cancel-armed s s refl refl h))

fire-IsNamed : (s : TokenStore) → IsNamed s → IsNamed (fire s)
unfolding fire
fire-IsNamed s (inl e) = rw (e, fire) (inl e)
fire-IsNamed s (inr (due, id, token, e, f, g, h)) =
    rw (e, fire) (refresh-IsNamed (record s { armed = [] }) (inl refl))

module _ (decode : Option String → Option (Option ℕ)) where
  schedule-IsNamed :
      (now : ℕ) (token : Option String) (s : TokenStore)
      → s.armed ≡ []
      → s.access_token ≡ token
      → IsNamed (schedule decode now token s)
  unfolding schedule
  schedule-IsNamed now none s h t = inl h
  schedule-IsNamed now (some token) s h t = elim (Bool-cases (is_empty token)) [
    | inl e ↦ rw e (inl h)
    | inr e ↦ elim (Option-cases (parse_jwt_exp decode token)) [
      | inl f ↦ rw (e, f, schedule) (inl h)
      | inr (exp, f) ↦ elim (Bool-cases (nat_eq exp 0)) [
        | inl g ↦ rw (e, f, g, schedule) (inl h)
        | inr g ↦
            rw (e, f, schedule, g)
              (inr (due_time now exp, s.next_id, token, ground arith, refl, t, e))
      ]
    ]
  ]

  pub set-IsNamed :
      (now : ℕ) (token : Option String) (s : TokenStore)
      → IsNamed s
      → IsNamed (set decode now token s)
  unfolding set
  set-IsNamed now token s h = IsNamed-if (same_token s.access_token token) _ _ h (
      schedule-IsNamed now token (cancel_refresh_timer with_token)
        (cancel-armed s with_token refl refl h) (ground arith))
    where
      with_token : TokenStore
      with_token = record s { access_token = token }

  -- `tokenStore.set` leaves the refresh under way alone.
  pub set-in_flight :
      (now : ℕ) (token : Option String) (s : TokenStore)
      → ((set decode now token s).pending ≡ s.pending)
        × ((set decode now token s).in_flight ≡ s.in_flight)
  unfolding set
  set-in_flight now none s = ground arith
  set-in_flight now (some token) s = ground arith

  step-IsSingle : (e : Event) (s : TokenStore) → IsSingle s → IsSingle (step decode e s)
  unfolding step
  step-IsSingle (set_token now token) s h = ground (arith, set-in_flight now token s)
  step-IsSingle (settled now token) s h =
      ground (arith, set-in_flight now token (record s { pending = s.pending - 1 }))
  step-IsSingle _ s h = ground arith

  step-IsNamed : (e : Event) (s : TokenStore) → IsNamed s → IsNamed (step decode e s)
  unfolding step
  step-IsNamed (set_token now token) s h = set-IsNamed now token s h
  step-IsNamed (settled now token) s h =
      IsNamed-if s.in_flight _ _ (set-IsNamed now token (record s { pending = s.pending - 1 }) h) h
  step-IsNamed refresh s h = refresh-IsNamed s h
  step-IsNamed timer_fires s h = fire-IsNamed s h
  step-IsNamed cancel s h = inl (cancel-armed s s refl refl h)
  step-IsNamed failed s h = IsNamed-if s.in_flight _ _ h h
  step-IsNamed set_loaded s h = IsNamed-if s.is_loading_auth _ _ h h
  step-IsNamed (subscribe id) s h = h
  step-IsNamed (unsubscribe id) s h = h

  run-invariant :
      (es : List Event) (s : TokenStore)
      → IsNamed s
      → IsSingle s
      → IsNamed (run decode es s) × IsSingle (run decode es s)
  unfolding run
  run-invariant [] s h k = (h, k)
  run-invariant (e ∷ es) s h k =
      run-invariant es (step decode e s) (step-IsNamed e s h) (step-IsSingle e s k)

  -- After any events on a fresh page, at most one call of the refresh action is under way, and it
  -- is the one that callers share; and at most one timer is armed, it is the one that the module
  -- can cancel, and only while there is a token to renew.
  pub run-init : (es : List Event) → IsNamed (run decode es init) × IsSingle (run decode es init)
  run-init es = run-invariant es init (inl refl) refl
