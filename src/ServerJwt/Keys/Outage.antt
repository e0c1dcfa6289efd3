-- ===== src/ServerJwt/Keys/Outage.antt =====
-- What the key cache answers while the auth service fails, or withholds a key.
use go_grpc_microservices.Prelude.{
  ℕ, ◌+◌, ◌<◌, ◌≡◌, ◌⊎◌, ◌↔◌, String, Bool, true, false, none, some, arith,
}
use go_grpc_microservices.JsMap.{map_get}
use go_grpc_microservices.ServerJwt.Keys.{
  CachedJwkEntry, JwksCache, refresh_interval_ms, prune, JwksReply, thrown, not_ok, jwks,
  refresh_jwks_cache, Resolution, resolved_key, jwks_fetch_failed, lookup_cached, settle,
  resolve_with, resolve_jwk,
}

-- The request brought no key set.
abbrev pub IsOutage : JwksReply → Type 0
IsOutage r = (r ≡ thrown) ⊎ (r ≡ not_ok)

abbrev pub is_found : Resolution → Bool
is_found (resolved_key k alg) = true
is_found _ = false

-- A key that is cached and within its retention is found, whatever the service answers and
-- whatever other requests do meanwhile: a key that the service has withdrawn among them.
resolve_jwk_cached :
    (now : ℕ) (reply : JwksReply) (others : JwksCache → JwksCache) (kid : String) (c : JwksCache)
    (e : CachedJwkEntry)
    → map_get kid (prune now c).entries ≡ some e
    → is_found (resolve_jwk now reply others kid c).0 ≡ true
unfolding resolve_jwk resolve_with lookup_cached settle refresh_jwks_cache
resolve_jwk_cached now thrown others kid c e h = ground arith
resolve_jwk_cached now not_ok others kid c e h = ground arith
resolve_jwk_cached now (jwks keys) others kid c e h = ground arith

-- During an outage, and with no other request between, a cached key within its retention is what a
-- request is answered with.
pub resolve_jwk_outage :
    (now : ℕ) (reply : JwksReply) (kid : String) (c : JwksCache) (e : CachedJwkEntry)
    → map_get kid (prune now c).entries ≡ some e
    → IsOutage reply
    → (resolve_jwk now reply (λ d. d) kid c).0 ≡ resolved_key e.key e.alg
unfolding resolve_jwk resolve_with lookup_cached settle refresh_jwks_cache
resolve_jwk_outage now thrown kid c e h o = ground arith
resolve_jwk_outage now not_ok kid c e h o = ground arith
resolve_jwk_outage now (jwks keys) kid c e h o = ground arith

-- A key within the refresh interval is answered from the cache: the reply is not asked for.
pub resolve_jwk_fresh :
    (now : ℕ) (reply : JwksReply) (others : JwksCache → JwksCache) (kid : String) (c : JwksCache)
    (e : CachedJwkEntry)
    → map_get kid (prune now c).entries ≡ some e
    → now < c.last_fetch_at + refresh_interval_ms
    → resolve_jwk now reply others kid c ≡ (resolved_key e.key e.alg, prune now c)
unfolding resolve_jwk resolve_with lookup_cached prune
resolve_jwk_fresh now reply others kid c e h t = ground arith

-- The failure of the request is reported exactly if it failed and the key is in no cache that the
-- request saw: neither before it, nor in what other requests left.
resolve_jwk_fetch_failed_iff :
    (now : ℕ) (reply : JwksReply) (others : JwksCache → JwksCache) (kid : String) (c : JwksCache)
    → ((resolve_jwk now reply others kid c).0 ≡ jwks_fetch_failed) ↔ (
        IsOutage reply
        × (map_get kid (prune now c).entries ≡ none)
        × (map_get kid (others (prune now c)).entries ≡ none))
unfolding resolve_jwk resolve_with lookup_cached settle refresh_jwks_cache
resolve_jwk_fetch_failed_iff now thrown others kid c = (λ h. ground arith, λ h. ground arith)
resolve_jwk_fetch_failed_iff now not_ok others kid c = (λ h. ground arith, λ h. ground arith)
resolve_jwk_fetch_failed_iff now (jwks keys) others kid c = (λ h. ground arith, λ h. ground arith)
