-- ===== src/Tests/Sessions.antt =====
-- The theorems on tokens and sessions (web/src/lib/server-jwt.ts, server-auth.ts, token-store.ts,
-- web/src/actions/auth.ts, web/src/proxy.ts) at concrete inputs.
use go_grpc_microservices.Prelude.{
  ℕ, ◌≡◌, ◌≢◌, ◌⊎◌, inl, refl, String, true, Option, some, [], ◌∷◌, arith, In, All,
}
use go_grpc_microservices.JsMap.{JsMap, map_get, map_set, map_delete_if}
use go_grpc_microservices.ServerJwt.Keys.{
  ed_dsa, Jwk, CachedJwkEntry, JwksCache, normalize_jwk_algorithm, prune, thrown, jwks, resolve_jwk,
}
use go_grpc_microservices.ServerJwt.Keys.Cache.{
  IsWellFiled, IsRetained, IsRecent, resolve_jwk-IsRetained,
}
use go_grpc_microservices.ServerJwt.Validate.{Header, Payload, Jose, valid, validate_refresh_token}
use go_grpc_microservices.ServerJwt.Validate.Soundness.{
  IsVerified, validate_refresh_token-IsVerified, validate_refresh_token_outage,
}
use go_grpc_microservices.ServerAuth.{refresh_token_cookie_name, next, proxy, proxy-IsVerified}
use go_grpc_microservices.TokenStore
use go_grpc_microservices.TokenStore.{
  TokenStore, Timeout, same_token, refresh_access_token_singleton, parse_jwt_exp, due_time, init,
}
use go_grpc_microservices.TokenStore.Invariant.{IsNamed, IsSingle, run-init}
use go_grpc_microservices.TokenStore.Timer.{IsArmed, set_lem, refresh_loses_timer}
use go_grpc_microservices.AuthActions.{
  RefreshCookie, Call, Server, cookie_token, joined, started, tokens, refresh_start, register,
}
use go_grpc_microservices.AuthActions.Dedup
use go_grpc_microservices.AuthActions.Dedup.{IsTracked, run-IsTracked, refresh_start_dedup}

abbrev jwk : Jwk
jwk = record {
  kid = some "k1";
  alg = some "EdDSA";
  kty = some "OKP";
  crv = some "Ed25519";
  material = "key";
}

abbrev cached : CachedJwkEntry
cached = record { key = jwk; alg = ed_dsa; observed_at = 100 }

abbrev cache : JwksCache
cache = record { entries = ("k1", cached) ∷ []; last_fetch_at = 100 }

abbrev header : Header
header = record { alg = some "EdDSA"; kid = some "k1" }

abbrev payload : Payload
payload = record { sub = "u"; iat = 1; exp = 2; token_type = some "refresh" }

-- A key is its material, and every token verifies under every key.
abbrev jose : Jose
jose = record {
  Key = String;
  decode_protected_header = λ t. some header;
  import_jwk = λ k a. some k.material;
  jwt_verify = λ t k a. some payload;
}

abbrev cookies : JsMap String
cookies = ("voice_refresh_token", "t") ∷ []

-- past the refresh interval, within the retention
abbrev later : ℕ
later = 4000000

cache-IsWellFiled : IsWellFiled cache
unfolding normalize_jwk_algorithm
cache-IsWellFiled = ((refl, refl), tt)

cached-later : map_get "k1" (prune later cache).entries ≡ some cached
unfolding prune map_get map_delete_if
cached-later = refl

accepted : (validate_refresh_token jose later thrown (λ d. d) (some "t") cache).0 ≡ valid payload
accepted =
    validate_refresh_token_outage jose later thrown "t" cache header "k1" cached "key" payload
      (inl refl) refl refl refl refl refl cached-later refl refl refl

validate_refresh_token_outage_example :
    (validate_refresh_token jose later thrown (λ d. d) (some "t") cache).0 ≡ valid payload
validate_refresh_token_outage_example =
    validate_refresh_token_outage jose later thrown "t" cache header "k1" cached "key" payload
      (inl refl) refl refl refl refl refl cached-later refl refl refl

validate_refresh_token-IsVerified_example :
    (t : String) × (some "t" ≡ some t) × IsVerified jose t payload
validate_refresh_token-IsVerified_example =
    validate_refresh_token-IsVerified jose later thrown (λ d. d) (some "t") cache payload
      cache-IsWellFiled (λ d h. h) accepted

resolve_jwk-IsRetained_example :
    All (IsRetained later) (resolve_jwk later (jwks (some jwk ∷ [])) (λ d. d) "k1" cache).1.entries
    × IsRecent later "k1" cache (resolve_jwk later (jwks (some jwk ∷ [])) (λ d. d) "k1" cache)
resolve_jwk-IsRetained_example =
    resolve_jwk-IsRetained later (jwks (some jwk ∷ [])) (λ d. d) "k1" cache (λ d h. h)

let_through : proxy jose later thrown (λ d. d) cookies cache ≡ next
unfolding proxy map_get
let_through = ground (arith, accepted)

proxy-IsVerified_example :
    (token : String) × (p : Payload) × (map_get refresh_token_cookie_name cookies ≡ some token)
    × IsVerified jose token p
proxy-IsVerified_example =
    proxy-IsVerified jose later thrown (λ d. d) cookies cache cache-IsWellFiled (λ d h. h)
      let_through

-- Every token expires at second 100.
abbrev decode : Option String → Option (Option ℕ)
decode part = some (some 100)

abbrev signed_in : TokenStore
signed_in = TokenStore.set decode 0 (some "a") init

signed_in-IsNamed : IsNamed signed_in
unfolding TokenStore.set TokenStore.run parse_jwt_exp TokenStore.step
signed_in-IsNamed = (run-init decode (TokenStore.set_token 0 (some "a") ∷ [])).0

run-init_example :
    let es =
      TokenStore.set_token 0 (some "a")
      ∷ TokenStore.timer_fires
      ∷ TokenStore.refresh
      ∷ TokenStore.settled 70000 (some "b")
      ∷ [] in
    IsNamed (TokenStore.run decode es init) × IsSingle (TokenStore.run decode es init)
run-init_example = run-init decode (
    TokenStore.set_token 0 (some "a")
    ∷ TokenStore.timer_fires
    ∷ TokenStore.refresh
    ∷ TokenStore.settled 70000 (some "b")
    ∷ [])

set_lem_example :
    ((TokenStore.set decode 5 (some "h.a") init).access_token ≡ some "h.a")
    × ((TokenStore.set decode 5 (some "h.a") init).notified ≡ [])
    × IsArmed decode 5 0 (some "h.a") (TokenStore.set decode 5 (some "h.a") init).armed
set_lem_example = set_lem decode 5 (some "h.a") init (inl refl) refl

-- The timer is due at 100 - 30 seconds.
timer_is_due :
    (TokenStore.set decode 5 (some "h.a") init).armed ≡ record { id = 0; due = 70000 } ∷ []
unfolding TokenStore.set TokenStore.schedule TokenStore.arm parse_jwt_exp due_time
timer_is_due = refl

refresh_loses_timer_example :
    let started_store = refresh_access_token_singleton signed_in in
    ((TokenStore.step decode (TokenStore.settled 9 (some "a")) started_store).armed ≡ [])
    × ((TokenStore.step decode TokenStore.failed started_store).armed ≡ [])
    × ((TokenStore.step decode TokenStore.failed started_store).access_token ≡ some "a")
unfolding TokenStore.set parse_jwt_exp
refresh_loses_timer_example = refresh_loses_timer decode 9 signed_in signed_in-IsNamed refl

abbrev hash : String → String
hash s = s

abbrev cookie : RefreshCookie
cookie = record {
  value = "r";
  http_only = true;
  secure = true;
  same_site = "lax";
  path = "/";
  max_age = 604800;
}

abbrev call : Call
call = record { request = 0; dedup_key = "r"; refresh_token = "r" }

-- Requests 0 and 1 come with the same token, and 0 has its call under way.
abbrev server : Server
server = record { inflight = ("r", 0) ∷ []; calls = call ∷ []; cookies = λ r. some cookie }

abbrev idle : Server
idle = record { inflight = []; calls = []; cookies = λ r. some cookie }

server-IsTracked : IsTracked hash true (Dedup.run hash true (Dedup.start 0 ∷ []) idle)
server-IsTracked = run-IsTracked hash true (Dedup.start 0 ∷ []) (λ r. some cookie)

run-IsTracked_example : IsTracked hash true (
    Dedup.run hash true
      (Dedup.start 0 ∷ Dedup.start 1 ∷ Dedup.log_out 1 ∷ Dedup.finish "r" (tokens "a" "b") ∷ [])
      idle)
run-IsTracked_example =
    run-IsTracked hash true
      (Dedup.start 0 ∷ Dedup.start 1 ∷ Dedup.log_out 1 ∷ Dedup.finish "r" (tokens "a" "b") ∷ [])
      (λ r. some cookie)

refresh_start_dedup_example :
    let s = Dedup.run hash true (Dedup.start 0 ∷ []) idle in
    ((c : Call) × In c s.calls
      × (c.refresh_token ≡ "r")
      × (refresh_start hash true 1 s ≡ (joined c.request, s)))
    ⊎ (((refresh_start hash true 1 s).0 ≡ started) × All (λ c. c.refresh_token ≢ "r") s.calls)
unfolding Dedup.run Dedup.step refresh_start register cookie_token map_get map_set
refresh_start_dedup_example =
    refresh_start_dedup hash true 1 (Dedup.run hash true (Dedup.start 0 ∷ []) idle) "r" (λ a b e. e)
      server-IsTracked refl
