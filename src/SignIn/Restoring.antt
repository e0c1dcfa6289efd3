-- ===== src/SignIn/Restoring.antt =====
-- What the provider that restores a session leaves, and what setting a token does to the store.
use go_grpc_microservices.Prelude.{
  ℕ, ◌≡◌, ◌-◌, inl, inr, refl, String, Bool, true, false, Option, none, some, [], arith, eq_iff,
  ◌∙◌, ap, if◌then◌else◌, Bool-cases,
}
use go_grpc_microservices.TokenStore.{
  TokenStore, emit, cancel_refresh_timer, refresh_access_token_singleton, same_token, set, settle,
  settled, failed, set_loaded, step,
}
use go_grpc_microservices.TokenStore.Invariant.{IsNamed}
use go_grpc_microservices.TokenStore.Timer.{set-armed}
use go_grpc_microservices.SignIn.{provider_shown, provider_restored}

same_token_eq : (a b : Option String) → same_token a b ≡ true → a ≡ b
same_token_eq none none h = refl
same_token_eq none (some b) h = cc
same_token_eq (some a) none h = cc
same_token_eq (some a) (some b) h = ground (arith, eq_iff a b)

module _ (decode : Option String → Option (Option ℕ)) where
  -- What is set is what is read, also where it was there already.
  pub access_token-set :
      (now : ℕ) (token : Option String) (s : TokenStore)
      → (set decode now token s).access_token ≡ token
  unfolding set
  access_token-set now none s = elim (Bool-cases (same_token s.access_token none)) [
    | inl e ↦ rw e (same_token_eq s.access_token none e)
    | inr e ↦ rw e (ground arith)
  ]
  access_token-set now (some token) s = elim (Bool-cases (same_token s.access_token (some token))) [
    | inl e ↦ rw e (same_token_eq s.access_token (some token) e)
    | inr e ↦ rw e (ground arith)
  ]

  -- Setting no token leaves no timer armed, if a token was there or none was armed.
  pub armed-set-none :
      (now : ℕ) (token : String) (s : TokenStore)
      → IsNamed s
      → s.access_token ≡ some token
      → (set decode now none s).armed ≡ []
  armed-set-none now token s h e = (set-armed decode now none s h (ground arith)).2

  pub settled_lem :
      (now : ℕ) (token : Option String) (s : TokenStore)
      → s.in_flight ≡ true
      → ((step decode (settled now token) s).access_token ≡ token)
        × ((step decode (settled now token) s).in_flight ≡ false)
  unfolding step settle
  settled_lem now token s e =
      let next = λ (b : Bool). if b then settle decode now token s else s in
      (
        ap (λ b. (next b).access_token) e
            ∙ access_token-set now token (record s { pending = s.pending - 1 }),
        ap (λ b. (next b).in_flight) e,
      )

  loaded_lem :
      (s : TokenStore)
      → let t = step decode set_loaded s in
        (t.is_loading_auth ≡ false)
        × (t.in_flight ≡ s.in_flight)
        × (t.access_token ≡ s.access_token)
  unfolding step emit
  loaded_lem s = ground arith

  shown_lem :
      (s : TokenStore)
      → ((provider_shown decode s).in_flight ≡ true)
        × ((provider_shown decode s).access_token ≡ s.access_token)
  unfolding provider_shown step refresh_access_token_singleton cancel_refresh_timer
  shown_lem s = ground arith

  failed_lem :
      (s : TokenStore)
      → ((step decode failed s).access_token ≡ s.access_token)
        × ((step decode failed s).in_flight ≡ false)
  unfolding step
  failed_lem s = ground arith

  -- Whatever the refresh that `AuthProvider` starts brings, the page stops loading: once it ends,
  -- no refresh is under way, and the page is authenticated exactly if a token came, or, where the
  -- refresh failed, if it was before.
  pub provider_restored_lem :
      (now : ℕ) (reply : Option (Option String)) (s : TokenStore)
      → let t = provider_restored decode now reply (provider_shown decode s) in
        (t.is_loading_auth ≡ false)
        × (t.in_flight ≡ false)
        × (t.access_token ≡ (elim reply [ none ↦ s.access_token | some token ↦ token ]))
  unfolding provider_restored
  provider_restored_lem now none s =
      let start = shown_lem s in
      let ended = failed_lem (provider_shown decode s) in
      let loaded = loaded_lem (step decode failed (provider_shown decode s)) in
      (loaded.0, loaded.1 ∙ ended.1, loaded.2 ∙ ended.0 ∙ start.1)
  provider_restored_lem now (some token) s =
      let start = shown_lem s in
      let ended = settled_lem now token (provider_shown decode s) start.0 in
      let loaded = loaded_lem (step decode (settled now token) (provider_shown decode s)) in
      (loaded.0, loaded.1 ∙ ended.1, loaded.2 ∙ ended.0)
