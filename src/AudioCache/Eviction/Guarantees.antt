-- ===== src/AudioCache/Eviction/Guarantees.antt =====
-- What `enforceCacheCap` promises: the cap, least recently used first, no more than needed.
use go_grpc_microservices.Prelude.{
  ◌+◌, ◌≤◌, ◌<◌, ◌≡◌, refl, sym, ap, Bool, true, false, none, some, ◌⊎◌, arith, leb, ◌&&◌,
  Bool-cases, inl, inr, All, All-In,
}
use go_grpc_microservices.Async.{resolved}
use go_grpc_microservices.ObjectStore.{ObjectStore, In-of_get}
use go_grpc_microservices.AudioCache.Entry.{
  CacheEntry, entry_key, normalize_entry_size, recency, total, sum_from, sum_from-total,
  All-eviction_order, eviction_order,
}
use go_grpc_microservices.AudioCache.Eviction.{cache_cap_bytes, evict_from, enforce_cache_cap}
use go_grpc_microservices.AudioCache.Eviction.Listing.{In-eviction_order}
use go_grpc_microservices.AudioCache.Eviction.Loop.{Pending-start, evict_from_small, left-le-cap}
use go_grpc_microservices.AudioCache.Eviction.Rounds.{oldest_first_loop, needed_loop, newest_loop}

module _ (store : ObjectStore entry_key) where
  -- The loop from its first round.
  abbrev evicted : store.Contents → store.Contents
  evicted s = evict_from store (total (store.get_all s)) (eviction_order (store.get_all s)) s

  enforce_served :
      (s : store.Contents) → enforce_cache_cap store true true s ≡ (resolved tt, evicted s)
  unfolding enforce_cache_cap
  enforce_served s =
      let size : sum_from 0 (store.get_all s) ≡ total (store.get_all s) =
        omega (arith, sum_from-total 0 (store.get_all s)) in
      rw size (elim (Bool-cases (leb (total (store.get_all s)) cache_cap_bytes)) [
        | inl small ↦ rw small (
            ap (λ t. (resolved tt, t))
              (sym (
                evict_from_small store (total (store.get_all s)) (eviction_order (store.get_all s))
                  s small)))
        | inr large ↦ rw large
      ])

  -- If the listing or the deleting transaction fails, nothing changes.
  enforce_failed :
      (listed committed : Bool) (s : store.Contents)
      → (listed && committed) ≡ false
      → (enforce_cache_cap store listed committed s).1 ≡ s
  unfolding enforce_cache_cap sum_from
  enforce_failed false committed s h = refl
  enforce_failed true false s h = ground arith
  enforce_failed true true s h = cc

  -- When its requests succeed, `enforceCacheCap` resolves, and what is left in the store is
  -- within the cap of 200 MiB, whatever was there before.
  pub enforce_cache_cap-le-cap :
      (s : store.Contents)
      → ((enforce_cache_cap store true true s).0 ≡ resolved tt)
        × (total (store.get_all (enforce_cache_cap store true true s).1) ≤ cache_cap_bytes)
  enforce_cache_cap-le-cap s =
      rw (enforce_served s) (refl, left-le-cap store _ _ s (Pending-start store s))

  -- Eviction is least recently used first, whether or not the requests succeed: if one stored
  -- entry is gone afterwards and another is still there, the one that is gone was used no later.
  pub enforce_cache_cap_oldest_first :
      (s : store.Contents) (listed committed : Bool) (e f : CacheEntry)
      → store.get s e.key ≡ some e
      → store.get s f.key ≡ some f
      → store.get (enforce_cache_cap store listed committed s).1 e.key ≡ none
      → store.get (enforce_cache_cap store listed committed s).1 f.key ≡ some f
      → recency e ≤ recency f
  enforce_cache_cap_oldest_first s true true e f he hf gone kept =
      oldest_first_loop store (total (store.get_all s)) (eviction_order (store.get_all s)) s
        (Pending-start store s) e f
        (In-eviction_order e (store.get_all s) (In-of_get store s e.key he).0)
        (In-eviction_order f (store.get_all s) (In-of_get store s f.key hf).0)
        (rw (enforce_served s) at gone) (rw (enforce_served s) at kept)
  enforce_cache_cap_oldest_first s true false e f he hf gone kept =
      absurd (ground (arith, enforce_failed true false s))
  enforce_cache_cap_oldest_first s false committed e f he hf gone kept =
      absurd (ground (arith, enforce_failed false committed s))

  -- Eviction stops as soon as it may: when the store is over the cap, some stored entry is
  -- deleted without which what is left would be over the cap still.
  enforce_cache_cap_needed :
      (s : store.Contents)
      → cache_cap_bytes < total (store.get_all s)
      → (e : CacheEntry) × (store.get s e.key ≡ some e)
        × (store.get (enforce_cache_cap store true true s).1 e.key ≡ none)
        × (cache_cap_bytes
            < total (store.get_all (enforce_cache_cap store true true s).1)
              + normalize_entry_size e)
  enforce_cache_cap_needed s over =
      let (e, i, gone, tight) =
        needed_loop store (total (store.get_all s)) (eviction_order (store.get_all s)) s
          (Pending-start store s) over in
      (
        e,
        All-In (λ g. store.get s g.key ≡ some g) (eviction_order (store.get_all s))
            (Pending-start store s).present i,
        rw (enforce_served s) gone,
        rw (enforce_served s) tight,
      )

  -- The entry that was used last of all, strictly after every other, is kept if it alone fits.
  pub newest_kept :
      (s : store.Contents) (listed committed : Bool) (f : CacheEntry)
      → store.get s f.key ≡ some f
      → normalize_entry_size f ≤ cache_cap_bytes
      → All (λ e. (e ≡ f) ⊎ (recency e < recency f)) (store.get_all s)
      → store.get (enforce_cache_cap store listed committed s).1 f.key ≡ some f
  newest_kept s true true f h fits newest = rw (enforce_served s) (
      newest_loop store (total (store.get_all s)) (eviction_order (store.get_all s)) s
        (Pending-start store s) f
        (In-eviction_order f (store.get_all s) (In-of_get store s f.key h).0) fits
        (All-eviction_order (λ e. (e ≡ f) ⊎ (recency e < recency f)) (store.get_all s) newest))
  newest_kept s true false f h fits newest = rw (enforce_failed true false s refl) h
  newest_kept s false committed f h fits newest = rw (enforce_failed false committed s refl) h
