-- ===== src/AudioCache/Eviction.antt =====
-- `enforceCacheCap` of web/src/lib/audio-cache.ts.
mod Listing
pub mod Loop
mod Rounds
pub mod Guarantees
use go_grpc_microservices.Prelude.{ℕ, ◌-◌, ◌*◌, Bool, List, [], ◌∷◌, String, leb, if◌then◌else◌}
use go_grpc_microservices.Async.{Settled, resolved, rejected, Async, resolve}
use go_grpc_microservices.ObjectStore.{ObjectStore}
use go_grpc_microservices.AudioCache.Entry.{
  CacheEntry, entry_key, normalize_entry_size, sum_from, eviction_order,
}

abbrev pub cache_cap_bytes : ℕ
cache_cap_bytes = 200 * 1024 * 1024

module _ (store : ObjectStore entry_key) where
  -- The loop over the entries in eviction order, with the running `totalSize`.
  unfoldable pub evict_from : ℕ → List CacheEntry → store.Contents → store.Contents
  evict_from total_size [] s = s
  evict_from total_size (e ∷ es) s =
      if leb total_size cache_cap_bytes
      then s
      else evict_from (total_size - normalize_entry_size e) es (store.delete s e.key)

  -- `listed`: the `getAll` request succeeds (else it counts as an empty store). `committed`: the
  -- deleting transaction completes (else it is rolled back, and the promise rejects).
  unfoldable pub enforce_cache_cap : Bool → Bool → Async store.Contents (Unit {0})
  unfolding evict_from
  enforce_cache_cap listed committed s =
      let entries = if listed then store.get_all s else [] in
      let total_size = sum_from 0 entries in
      if leb total_size cache_cap_bytes
      then (resolved tt, s)
      else if committed
      then (resolved tt, evict_from total_size (eviction_order entries) s)
      else (rejected "transaction failed", s)
