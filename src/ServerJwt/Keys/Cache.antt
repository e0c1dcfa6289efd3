-- ===== src/ServerJwt/Keys/Cache.antt =====
-- The key cache: every entry is what its key says, none outlives the retention, and what the
-- service withholds or fails to say does not remove a key before its time.
use go_grpc_microservices.Prelude.{
  ℕ, ◌+◌, ◌≤◌, ◌≡◌, refl, inl, inr, String, Bool, true, false, Option, none, some, List, [], ◌∷◌,
  ltb, ◌⊎◌, arith, All, All-mono, In, All-In, All-of_In, Bool-cases, Option-cases,
}
use go_grpc_microservices.JsMap.{
  JsMap, map_get, All-map_get, All-map_set, All-map_delete_if, map_delete_if-All,
}
use go_grpc_microservices.ServerJwt.Keys.{
  Algorithm, Jwk, CachedJwkEntry, JwksCache, normalize_jwk_algorithm, refresh_interval_ms,
  retention_ms, expired, prune, JwksReply, thrown, not_ok, jwks, observe, observe_key, observe_keys,
  refresh_jwks_cache, Resolution, resolved_key, invalid_token, jwks_fetch_failed, Lookup, answered,
  fetching, lookup_cached, settle, resolve_with, resolve_jwk,
}

-- An entry is filed under its key's id, with the algorithm that its key stands for.
abbrev IsFiled : String × CachedJwkEntry → Type 0
IsFiled e = (e.1.key.kid ≡ some e.0) × (normalize_jwk_algorithm e.1.key ≡ some e.1.alg)

abbrev pub IsWellFiled : JwksCache → Type 0
IsWellFiled c = All IsFiled c.entries

prune-IsWellFiled : (now : ℕ) (c : JwksCache) → IsWellFiled c → IsWellFiled (prune now c)
unfolding prune
prune-IsWellFiled now c h = All-map_delete_if IsFiled (expired now) c.entries h

observe_key-All :
    (P : String × CachedJwkEntry → Type 0) (now : ℕ) (key : Option Jwk) (m : JsMap CachedJwkEntry)
    → ((k : Jwk) (kid : String) (alg : Algorithm)
        → k.kid ≡ some kid
        → normalize_jwk_algorithm k ≡ some alg
        → P (kid, record { key = k; alg = alg; observed_at = now }))
    → All P m
    → All P (observe_key now key m)
unfolding observe_key
observe_key-All P now none m step h = h
observe_key-All P now (some key) m step h = elim (Option-cases key.kid) [
  | inl e ↦ rw e h
  | inr (kid, e) ↦ elim (Option-cases (normalize_jwk_algorithm key)) [
    | inl f ↦ rw (e, f, observe) h
    | inr (alg, f) ↦ rw (e, f, observe) (All-map_set P kid _ m (step key kid alg e f) h)
  ]
]

-- What holds of every entry that is found holds of the one that is answered with.
module _ (P : String × CachedJwkEntry → Type 0) where
  settle-All :
      (kid : String) (refreshed cached : Option CachedJwkEntry) (ok : Bool)
      → ((e : CachedJwkEntry) → refreshed ≡ some e → P (kid, e))
      → ((e : CachedJwkEntry) → cached ≡ some e → P (kid, e))
      → (k : Jwk) (alg : Algorithm) → settle refreshed cached ok ≡ resolved_key k alg
      → (e : CachedJwkEntry) × P (kid, e) × (e.key ≡ k) × (e.alg ≡ alg)
  unfolding settle
  settle-All kid (some r) cached ok hr hc k alg h = (r, hr r refl, ground arith, ground arith)
  settle-All kid none (some d) ok hr hc k alg h = (d, hc d refl, ground arith, ground arith)
  settle-All kid none none true hr hc k alg h = cc
  settle-All kid none none false hr hc k alg h = cc

  abbrev Backed : String → Lookup → Type 0
  Backed kid (answered k alg) = (e : CachedJwkEntry) × P (kid, e) × (e.key ≡ k) × (e.alg ≡ alg)
  Backed kid (fetching cached) = (e : CachedJwkEntry) → cached ≡ some e → P (kid, e)

  lookup_cached-Backed :
      (now : ℕ) (kid : String) (last : ℕ) (cached : Option CachedJwkEntry)
      → ((e : CachedJwkEntry) → cached ≡ some e → P (kid, e))
      → Backed kid (lookup_cached now last cached)
  unfolding lookup_cached
  lookup_cached-Backed now kid last none h = h
  lookup_cached-Backed now kid last (some e) h =
      elim (Bool-cases (ltb now (last + refresh_interval_ms))) [
        | inl t ↦ rw t (e, h e refl, refl, refl)
        | inr t ↦ rw t h
      ]

module _ (P : String × CachedJwkEntry → Type 0) (now : ℕ)
    (fresh : (k : Jwk) (kid : String) (alg : Algorithm)
      → k.kid ≡ some kid
      → normalize_jwk_algorithm k ≡ some alg
      → P (kid, record { key = k; alg = alg; observed_at = now })) where
  observe_keys-All :
      (keys : List (Option Jwk)) (m : JsMap CachedJwkEntry)
      → All P m
      → All P (observe_keys now keys m)
  unfolding observe_keys
  observe_keys-All [] m h = h
  observe_keys-All (key ∷ keys) m h =
      observe_keys-All keys (observe_key now key m) (observe_key-All P now key m fresh h)

  refresh-All :
      (reply : JwksReply) (c : JwksCache)
      → All P c.entries
      → All P (refresh_jwks_cache now reply c).1.entries
  unfolding refresh_jwks_cache
  refresh-All thrown c h = h
  refresh-All not_ok c h = h
  refresh-All (jwks keys) c h =
      All-map_delete_if P (expired now) _ (observe_keys-All keys c.entries h)

  resolve_with-All :
      (reply : JwksReply) (others : JwksCache → JwksCache) (kid : String) (pruned : JwksCache)
      → All P pruned.entries
      → ((d : JwksCache) → All P d.entries → All P (others d).entries)
      → (look : Lookup) → Backed P kid look
      → All P (resolve_with now reply others kid pruned look).1.entries
        × ((k : Jwk) (alg : Algorithm)
            → (resolve_with now reply others kid pruned look).0 ≡ resolved_key k alg
            → (e : CachedJwkEntry) × P (kid, e) × (e.key ≡ k) × (e.alg ≡ alg))
  unfolding resolve_with
  resolve_with-All reply others kid pruned h keep (answered key alg) (e, p, q, r) =
      (h, λ k a t. (e, p, ground arith, ground arith))
  resolve_with-All reply others kid pruned h keep (fetching cached) back =
      let after = refresh-All reply (others pruned) (keep pruned h) in
      (
        after,
        settle-All P kid (map_get kid (refresh_jwks_cache now reply (others pruned)).1.entries)
            cached (refresh_jwks_cache now reply (others pruned)).0
            (λ e found. All-map_get P kid _ after found) back,
      )

  -- What holds of the entries in the pruned cache, of fresh entries, and of what other requests
  -- leave, holds of the entry that a request is answered with, and of the cache afterwards.
  resolve_jwk-All :
      (reply : JwksReply) (others : JwksCache → JwksCache) (kid : String) (c : JwksCache)
      → All P (prune now c).entries
      → ((d : JwksCache) → All P d.entries → All P (others d).entries)
      → All P (resolve_jwk now reply others kid c).1.entries
        × ((k : Jwk) (alg : Algorithm)
            → (resolve_jwk now reply others kid c).0 ≡ resolved_key k alg
            → (e : CachedJwkEntry) × P (kid, e) × (e.key ≡ k) × (e.alg ≡ alg))
  unfolding resolve_jwk
  resolve_jwk-All reply others kid c h keep =
      resolve_with-All reply others kid (prune now c) h keep
        (lookup_cached now (prune now c).last_fetch_at (map_get kid (prune now c).entries))
        (lookup_cached-Backed P now kid (prune now c).last_fetch_at
          (map_get kid (prune now c).entries)
          (λ e found. All-map_get P kid (prune now c).entries h found))

-- Last observed within the retention.
abbrev pub IsRetained : ℕ → String × CachedJwkEntry → Type 0
IsRetained now e = now ≤ e.1.observed_at + retention_ms

prune-IsRetained : (now : ℕ) (c : JwksCache) → All (IsRetained now) (prune now c).entries
unfolding prune
prune-IsRetained now c =
    All-mono (λ e. expired now e.1 ≡ false) (IsRetained now) _ (λ e h. ground arith)
      (map_delete_if-All (expired now) c.entries)

-- A resolved key has the id that was asked for and the algorithm that it stands for.
abbrev pub IsKeyFor : String → Resolution → Type 0
IsKeyFor kid (resolved_key k alg) = (k.kid ≡ some kid) × (normalize_jwk_algorithm k ≡ some alg)
IsKeyFor kid _ = Unit

-- A resolved key is that of an entry for the id that was cached before the request or is cached
-- after it, and that was observed within the retention.
abbrev pub IsRecent : ℕ → String → JwksCache → Resolution × JwksCache → Type 0
IsRecent now kid before (resolved_key k alg, after) =
    (e : CachedJwkEntry) × (e.key ≡ k)
    × (e.alg ≡ alg)
    × IsRetained now (kid, e)
    × (In (kid, e) before.entries ⊎ In (kid, e) after.entries)
IsRecent now kid before (invalid_token, after) = Unit
IsRecent now kid before (jwks_fetch_failed, after) = Unit

IsKeyFor-of :
    (kid : String) (r : Resolution)
    → ((k : Jwk) (alg : Algorithm)
        → r ≡ resolved_key k alg
        → (e : CachedJwkEntry) × IsFiled (kid, e) × (e.key ≡ k) × (e.alg ≡ alg))
    → IsKeyFor kid r
IsKeyFor-of kid (resolved_key k alg) f = let (e, p, q, t) = f k alg refl in ground arith
IsKeyFor-of kid invalid_token f = tt
IsKeyFor-of kid jwks_fetch_failed f = tt

-- An entry that is found is one of the entries.
map_get-In :
    (k : String) (m : JsMap CachedJwkEntry) {e : CachedJwkEntry}
    → map_get k m ≡ some e
    → In (k, e) m
map_get-In k m h = All-map_get (λ x. In x m) k m (All-of_In (λ x. In x m) m (λ x i. i)) h

prune-In :
    (now : ℕ) (c : JwksCache) (x : String × CachedJwkEntry)
    → In x (prune now c).entries
    → In x c.entries
unfolding prune
prune-In now c x i =
    All-In (λ x. In x c.entries) (prune now c).entries
      (All-map_delete_if (λ x. In x c.entries) (expired now) c.entries
        (All-of_In (λ x. In x c.entries) c.entries (λ x i. i)))
      i

-- Over a cache whose entries are filed under their own key ids, and whatever other requests make
-- of it meanwhile if they keep that, a resolved key is one with the id that was asked for and the
-- algorithm that it stands for, and the cache stays so filed.
pub resolve_jwk-IsWellFiled :
    (now : ℕ) (reply : JwksReply) (others : JwksCache → JwksCache) (kid : String) (c : JwksCache)
    → IsWellFiled c
    → ((d : JwksCache) → IsWellFiled d → IsWellFiled (others d))
    → IsWellFiled (resolve_jwk now reply others kid c).1
      × IsKeyFor kid (resolve_jwk now reply others kid c).0
resolve_jwk-IsWellFiled now reply others kid c h keep =
    let (after, back) =
      resolve_jwk-All IsFiled now (λ k j a p q. (p, q)) reply others kid c
        (prune-IsWellFiled now c h) keep in
    (after, IsKeyFor-of kid _ back)

-- Where the entry of an answer was found.
resolve_with_found :
    (now : ℕ) (reply : JwksReply) (others : JwksCache → JwksCache) (kid : String)
    (pruned : JwksCache) (look : Lookup)
    → Backed (λ x. In x pruned.entries) kid look
    → let r = resolve_with now reply others kid pruned look in
      (k : Jwk) (alg : Algorithm)
      → r.0 ≡ resolved_key k alg
      → (e : CachedJwkEntry) × (In (kid, e) pruned.entries ⊎ In (kid, e) r.1.entries)
        × (e.key ≡ k)
        × (e.alg ≡ alg)
unfolding resolve_with
resolve_with_found now reply others kid pruned (answered key alg) (e, i, q, r) =
    λ k a t. (e, inl i, ground arith, ground arith)
resolve_with_found now reply others kid pruned (fetching cached) back =
    let refreshed = refresh_jwks_cache now reply (others pruned) in
    settle-All (λ x. In x pruned.entries ⊎ In x refreshed.1.entries) kid
      (map_get kid refreshed.1.entries) cached refreshed.0
      (λ e found. inr (map_get-In kid refreshed.1.entries found)) (λ e found. inl (back e found))

resolve_jwk_found :
    (now : ℕ) (reply : JwksReply) (others : JwksCache → JwksCache) (kid : String) (c : JwksCache)
    (k : Jwk) (alg : Algorithm)
    → (resolve_jwk now reply others kid c).0 ≡ resolved_key k alg
    → (e : CachedJwkEntry) × (In (kid, e) (prune now c).entries
        ⊎ In (kid, e) (resolve_jwk now reply others kid c).1.entries)
      × (e.key ≡ k)
      × (e.alg ≡ alg)
unfolding resolve_jwk
resolve_jwk_found now reply others kid c =
    let pruned = prune now c in
    resolve_with_found now reply others kid pruned
      (lookup_cached now pruned.last_fetch_at (map_get kid pruned.entries))
      (lookup_cached-Backed (λ x. In x pruned.entries) now kid pruned.last_fetch_at
        (map_get kid pruned.entries) (λ e found. map_get-In kid pruned.entries found))

IsRecent-of :
    (now : ℕ) (kid : String) (c : JwksCache) (r : Resolution × JwksCache)
    → All (IsRetained now) r.1.entries
    → ((k : Jwk) (alg : Algorithm)
        → r.0 ≡ resolved_key k alg
        → (e : CachedJwkEntry) × (In (kid, e) (prune now c).entries ⊎ In (kid, e) r.1.entries)
          × (e.key ≡ k)
          × (e.alg ≡ alg))
    → IsRecent now kid c r
IsRecent-of now kid c (resolved_key k alg, after) h f =
    let (e, i, p, q) = f k alg refl in
    elim i [
      | inl j ↦ (
        e,
        p,
        q,
        All-In (IsRetained now) (prune now c).entries (prune-IsRetained now c) j,
        inl (prune-In now c (kid, e) j),
      )
      | inr j ↦ (e, p, q, All-In (IsRetained now) after.entries h j, inr j)
    ]
IsRecent-of now kid c (invalid_token, after) h f = tt
IsRecent-of now kid c (jwks_fetch_failed, after) h f = tt

-- No key is used past the retention of eight days: from any cache, the key that a request at
-- `now` is answered with is that of an entry for the id, with its algorithm, which was cached before
-- the request or is cached after it and was observed at most that long before `now`; and so was all
-- that stays cached: if other requests do not bring older entries in meanwhile.
pub resolve_jwk-IsRetained :
    (now : ℕ) (reply : JwksReply) (others : JwksCache → JwksCache) (kid : String) (c : JwksCache)
    → ((d : JwksCache) → All (IsRetained now) d.entries → All (IsRetained now) (others d).entries)
    → All (IsRetained now) (resolve_jwk now reply others kid c).1.entries
      × IsRecent now kid c (resolve_jwk now reply others kid c)
resolve_jwk-IsRetained now reply others kid c keep =
    let after =
      (resolve_jwk-All (IsRetained now) now (λ k j a p q. omega arith) reply others kid c
        (prune-IsRetained now c) keep).0 in
    (
      after,
      IsRecent-of now kid c (resolve_jwk now reply others kid c) after
          (resolve_jwk_found now reply others kid c),
    )
