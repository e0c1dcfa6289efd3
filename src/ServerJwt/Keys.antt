-- ===== src/ServerJwt/Keys.antt =====
-- The key cache of web/src/lib/server-jwt.ts.
pub mod Cache
pub mod Outage
use go_grpc_microservices.Prelude.{
  ℕ, ◌+◌, ◌*◌, ◌≡◌, String, Bool, true, false, ◌&&◌, ◌||◌, not, Option, none, some, List, [], ◌∷◌,
  ltb, ◌==◌, if◌then◌else◌,
}
use go_grpc_microservices.JsMap.{JsMap, map_get, map_set, map_delete_if}

-- `SupportedJwsAlgorithm`
pub data Algorithm : Type 0 where
  ed_dsa rs256 : Algorithm

-- The string that names an algorithm.
abbrev pub algorithm_name : Algorithm → String
algorithm_name ed_dsa = "EdDSA"
algorithm_name rs256 = "RS256"

abbrev algorithm_eq : Algorithm → Algorithm → Bool
algorithm_eq ed_dsa ed_dsa = true
algorithm_eq rs256 rs256 = true
algorithm_eq _ _ = false

-- `isSupportedAlgorithm`, which narrows a string to the union type.
unfoldable pub supported_algorithm : String → Option Algorithm
supported_algorithm algorithm =
    if algorithm == "EdDSA" then some ed_dsa else if algorithm == "RS256" then some rs256 else none

-- A JSON web key as it comes from the service; a field that is no string reads as `none`.
pub record Jwk : Type 0 where
  pub kid : Option String
  pub alg : Option String
  pub kty : Option String
  pub crv : Option String
  pub material : String

-- `field === "text"`
abbrev is_text : Option String → String → Bool
is_text none t = false
is_text (some s) t = s == t

-- `normalizeJwkAlgorithm`
unfoldable pub normalize_jwk_algorithm : Jwk → Option Algorithm
normalize_jwk_algorithm key =
    if is_text key.alg "EdDSA" || (is_text key.kty "OKP" && is_text key.crv "Ed25519")
    then some ed_dsa
    else if is_text key.alg "RS256" || is_text key.kty "RSA"
    then some rs256
    else none

pub record CachedJwkEntry : Type 0 where
  pub key : Jwk
  pub alg : Algorithm
  pub observed_at : ℕ

-- The module's variables `jwksCache` and `lastJwksFetchAt`.
pub record JwksCache : Type 0 where
  pub entries : JsMap CachedJwkEntry
  pub last_fetch_at : ℕ

abbrev pub refresh_interval_ms : ℕ
refresh_interval_ms = 60 * 60 * 1000

abbrev pub retention_ms : ℕ
retention_ms = 8 * 24 * 60 * 60 * 1000

-- `now - entry.observedAt > JWKS_RETENTION_MS`; the difference may be negative, so it is written
-- as a sum on the other side.
abbrev pub expired : ℕ → CachedJwkEntry → Bool
expired now e = ltb (e.observed_at + retention_ms) now

-- `pruneExpiredJwksEntries`
unfoldable pub prune : ℕ → JwksCache → JwksCache
prune now c = record c { entries = map_delete_if (expired now) c.entries }

-- What the request for the key set brings: an exception (of the request, or of its JSON), a
-- status that is not ok, or the list `jwks.keys`, in which an element may be `null`. A body whose
-- `keys` is no array counts as the empty list.
pub data JwksReply : Type 0 where
  thrown : JwksReply
  not_ok : JwksReply
  jwks : List (Option Jwk) → JwksReply

unfoldable pub observe :
    ℕ → Jwk → String → Option Algorithm → JsMap CachedJwkEntry → JsMap CachedJwkEntry
observe now key kid none m = m
observe now key kid (some alg) m =
    map_set kid (record { key = key; alg = alg; observed_at = now }) m

-- One round of the loop over the keys.
unfoldable pub observe_key : ℕ → Option Jwk → JsMap CachedJwkEntry → JsMap CachedJwkEntry
unfolding observe
observe_key now none m = m
observe_key now (some key) m = elim key.kid [
  | none ↦ m
  | some kid ↦ observe now key kid (normalize_jwk_algorithm key) m
]

unfoldable pub observe_keys : ℕ → List (Option Jwk) → JsMap CachedJwkEntry → JsMap CachedJwkEntry
observe_keys now [] m = m
observe_keys now (key ∷ keys) m = observe_keys now keys (observe_key now key m)

-- `refreshJwksCache`, from the reply on: whether it succeeds, and the cache it leaves.
unfoldable pub refresh_jwks_cache : ℕ → JwksReply → JwksCache → Bool × JwksCache
unfolding prune
refresh_jwks_cache now thrown c = (false, c)
refresh_jwks_cache now not_ok c = (false, c)
refresh_jwks_cache now (jwks keys) c =
    (true, prune now (record { entries = observe_keys now keys c.entries; last_fetch_at = now }))

pub data Resolution : Type 0 where
  resolved_key : Jwk → Algorithm → Resolution
  invalid_token : Resolution
  jwks_fetch_failed : Resolution

-- `resolveRefreshTokenJwk` up to the request: an answer from the cache, or the cached entry that
-- the request is made beside.
pub data Lookup : Type 0 where
  answered : Jwk → Algorithm → Lookup
  fetching : Option CachedJwkEntry → Lookup

unfoldable pub lookup_cached : ℕ → ℕ → Option CachedJwkEntry → Lookup
lookup_cached now last_fetch_at none = fetching none
lookup_cached now last_fetch_at (some e) =
    if ltb now (last_fetch_at + refresh_interval_ms)
    then answered e.key e.alg
    else fetching (some e)

-- `resolveRefreshTokenJwk` from the reply on.
unfoldable pub settle : Option CachedJwkEntry → Option CachedJwkEntry → Bool → Resolution
settle (some refreshed) cached ok = resolved_key refreshed.key refreshed.alg
settle none (some cached) ok = resolved_key cached.key cached.alg
settle none none false = jwks_fetch_failed
settle none none true = invalid_token

-- `resolveRefreshTokenJwk` behind its first read of the pruned cache: `others` is what other
-- requests make of the cache while this one waits for the key set.
unfoldable pub resolve_with :
    ℕ → JwksReply → (JwksCache → JwksCache) → String → JwksCache → Lookup → Resolution × JwksCache
unfolding settle
resolve_with now reply others kid pruned (answered key alg) = (resolved_key key alg, pruned)
resolve_with now reply others kid pruned (fetching cached) =
    let (ok, refreshed) = refresh_jwks_cache now reply (others pruned) in
    (settle (map_get kid refreshed.entries) cached ok, refreshed)

-- `resolveRefreshTokenJwk`
unfoldable pub resolve_jwk :
    ℕ → JwksReply → (JwksCache → JwksCache) → String → JwksCache → Resolution × JwksCache
resolve_jwk now reply others kid c =
    let pruned = prune now c in
    resolve_with now reply others kid pruned
      (lookup_cached now pruned.last_fetch_at (map_get kid pruned.entries))
