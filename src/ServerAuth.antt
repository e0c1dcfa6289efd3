-- ===== src/ServerAuth.antt =====
-- The guards of the server: web/src/lib/server-auth.ts, web/src/proxy.ts and web/src/app/page.tsx.
use go_grpc_microservices.Prelude.{
  ℕ, ◌≡◌, ◌↔◌, ◌⊎◌, inl, inr, refl, String, Bool, true, false, not, Option, some, if◌then◌else◌,
  arith,
}
use go_grpc_microservices.JsMap.{JsMap, map_get}
use go_grpc_microservices.ServerJwt.Keys.{JwksCache, JwksReply}
use go_grpc_microservices.ServerJwt.Keys.Cache.{IsWellFiled}
use go_grpc_microservices.ServerJwt.Validate.{
  Jose, Payload, Reason, Validation, valid, invalid, validate_refresh_token,
}
use go_grpc_microservices.ServerJwt.Validate.Soundness.{
  IsVerified, validate_refresh_token-IsVerified,
}

-- `REFRESH_TOKEN_COOKIE_NAME`
abbrev pub refresh_token_cookie_name : String
refresh_token_cookie_name = "voice_refresh_token"

-- Where a request goes on: to the page, or to another address.
pub data Route : Type 0 where
  next : Route
  redirect : String → Route

abbrev is_valid : Validation → Bool
is_valid (valid p) = true
is_valid (invalid r) = false

Validation-cases :
    (v : Validation) → ((p : Payload) × (v ≡ valid p)) ⊎ ((r : Reason) × (v ≡ invalid r))
Validation-cases (valid p) = inl (p, refl)
Validation-cases (invalid r) = inr (r, refl)

home_cases :
    (b : Bool)
    → (((if b then redirect "/dashboard" else redirect "/login") ≡ redirect "/dashboard")
        ↔ ((if not b then redirect "/login" else next) ≡ next))
      × (((if b then redirect "/dashboard" else redirect "/login") ≡ redirect "/login")
          ↔ ((if b then redirect "/dashboard" else next) ≡ next))
home_cases true = ((λ h. refl, λ h. refl), (λ h. cc, λ h. cc))
home_cases false = ((λ h. cc, λ h. cc), (λ h. refl, λ h. refl))

module _ (jose : Jose) (now : ℕ) (reply : JwksReply) (others : JwksCache → JwksCache)
    (cookies : JsMap String) (c : JwksCache) where
  -- `hasServerSession`, from the cookies of the request
  has_server_session : Bool
  has_server_session =
      is_valid
        (validate_refresh_token jose now reply others (map_get refresh_token_cookie_name cookies)
          c).0

  -- `requireAuthenticated`
  unfoldable pub require_authenticated : Route
  unfolding has_server_session
  require_authenticated = if not has_server_session then redirect "/login" else next

  -- `requireGuest`
  unfoldable pub require_guest : Route
  unfolding has_server_session
  require_guest = if has_server_session then redirect "/dashboard" else next

  -- `Home` of app/page.tsx
  home : Route
  unfolding has_server_session
  home = if has_server_session then redirect "/dashboard" else redirect "/login"

  -- `proxy` of proxy.ts
  unfoldable pub proxy : Route
  proxy =
      elim (validate_refresh_token jose now reply others (map_get refresh_token_cookie_name cookies)
        c).0 [ valid p ↦ next | invalid r ↦ redirect "/login" ]

  -- The first page leads to a page that lets the request through: to the dashboard exactly if the
  -- guard of a user's pages does, and to the log-in exactly if that of a guest's does.
  home_iff :
      ((home ≡ redirect "/dashboard") ↔ (require_authenticated ≡ next))
      × ((home ≡ redirect "/login") ↔ (require_guest ≡ next))
  unfolding home require_authenticated require_guest
  home_iff = home_cases has_server_session

  -- Over a cache of well-filed keys, which other requests keep so, the proxy lets only a request
  -- through whose cookie holds a verified refresh token.
  pub proxy-IsVerified :
      IsWellFiled c
      → ((d : JwksCache) → IsWellFiled d → IsWellFiled (others d))
      → proxy ≡ next
      → (token : String) × (p : Payload) × (map_get refresh_token_cookie_name cookies ≡ some token)
        × IsVerified jose token p
  unfolding proxy
  proxy-IsVerified w keep h =
      elim (Validation-cases (validate_refresh_token jose now reply others session c).0) [
        | inl (p, e) ↦
            let (t, found, verified) =
              validate_refresh_token-IsVerified jose now reply others session c p w keep e in
            (t, p, found, verified)
        | inr (r, e) ↦ absurd (ground arith)
      ]
    where
      session : Option String
      session = map_get refresh_token_cookie_name cookies
