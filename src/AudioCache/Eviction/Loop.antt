-- ===== src/AudioCache/Eviction/Loop.antt =====
-- The eviction loop of `enforceCacheCap`: what holds of the entries that it has still to visit.
use go_grpc_microservices.Prelude.{
  ℕ, ◌+◌, ◌-◌, ◌≤◌, ◌≡◌, ◌≢◌, refl, sym, ◌∙◌, String, true, none, some, List, [], ◌∷◌, arith, leb,
  eq_iff, Bool-cases, inl, inr, All, All-of_In,
}
use go_grpc_microservices.ObjectStore.{ObjectStore, get-delete, get_of_In}
use go_grpc_microservices.AudioCache.Entry.{
  CacheEntry, entry_key, normalize_entry_size, total, IsSorted, eviction_order,
  total-eviction_order, eviction_order-IsSorted, All-eviction_order,
}
use go_grpc_microservices.AudioCache.Eviction.{cache_cap_bytes, evict_from}
use go_grpc_microservices.AudioCache.Eviction.Listing.{
  KeysDiffer, KeysDiffer-of_Distinct, total-without, eviction_order-KeysDiffer,
}

module _ (store : ObjectStore entry_key) where
  -- Before each round: the running size is the size of what is stored, and of what is still to be
  -- visited; that is all there, sorted, under keys that differ.
  pub record Pending (size : ℕ) (es : List CacheEntry) (s : store.Contents) : Type 0 where
    pub stored : size ≡ total (store.get_all s)
    pub ahead : size ≡ total es
    pub sorted : IsSorted es
    pub differ : KeysDiffer es
    pub present : All (λ e. store.get s e.key ≡ some e) es

  present-delete :
      (k : String) (s : store.Contents) (es : List CacheEntry)
      → All (λ f. k ≢ f.key) es
      → All (λ e. store.get s e.key ≡ some e) es
      → All (λ e. store.get (store.delete s k) e.key ≡ some e) es
  present-delete k s [] h p = tt
  present-delete k s (e ∷ es) h p =
      (ground (arith, get-delete store s k e.key, eq_iff k e.key), present-delete k s es h.1 p.1)

  pub total-delete :
      (e : CacheEntry) (s : store.Contents)
      → store.get s e.key ≡ some e
      → total (store.get_all (store.delete s e.key)) + normalize_entry_size e
        ≡ total (store.get_all s)
  total-delete e s h = rw (store.get_all-delete s e.key) (
      total-without e (store.get_all s) (sym (store.get_lem s e.key) ∙ h)
        (store.get_all-Distinct s))

  pub Pending-delete :
      {size : ℕ} (e : CacheEntry) (es : List CacheEntry) {s : store.Contents}
      → Pending size (e ∷ es) s
      → Pending (size - normalize_entry_size e) es (store.delete s e.key)
  unfolding total
  Pending-delete e es {s} p = record {
    stored = omega (arith, total-delete e s p.present.0, p.stored);
    ahead = omega (arith, p.ahead);
    sorted = p.sorted.1;
    differ = p.differ.1;
    present = present-delete e.key s es p.differ.0 p.present.1;
  }

  pub Pending-start :
      (s : store.Contents) → Pending (total (store.get_all s)) (eviction_order (store.get_all s)) s
  Pending-start s = record {
    stored = refl;
    ahead = sym (total-eviction_order (store.get_all s));
    sorted = eviction_order-IsSorted (store.get_all s);
    differ =
        eviction_order-KeysDiffer (store.get_all s)
          (KeysDiffer-of_Distinct (store.get_all s) (store.get_all-Distinct s));
    present =
        All-eviction_order (λ e. store.get s e.key ≡ some e) (store.get_all s)
          (All-of_In (λ e. store.get s e.key ≡ some e) (store.get_all s)
            (λ e i. get_of_In store s i));
  }

  pub evict_from_small :
      (size : ℕ) (es : List CacheEntry) (s : store.Contents)
      → leb size cache_cap_bytes ≡ true
      → evict_from store size es s ≡ s
  unfolding evict_from
  evict_from_small size [] s h = refl
  evict_from_small size (e ∷ es) s h = rw h

  -- The loop only deletes.
  pub absent-evict_from :
      (size : ℕ) (es : List CacheEntry) (s : store.Contents) (k : String)
      → store.get s k ≡ none
      → store.get (evict_from store size es s) k ≡ none
  unfolding evict_from
  absent-evict_from size [] s k h = h
  absent-evict_from size (e ∷ es) s k h = ground (
    arith,
    absent-evict_from (size - normalize_entry_size e) es (store.delete s e.key) k,
    get-delete store s e.key k,
  )

  -- The size after the loop.
  abbrev pub left : ℕ → List CacheEntry → store.Contents → ℕ
  left size es s = total (store.get_all (evict_from store size es s))

  pub left-le-cap :
      (size : ℕ) (es : List CacheEntry) (s : store.Contents)
      → Pending size es s
      → left size es s ≤ cache_cap_bytes
  unfolding evict_from total
  left-le-cap size [] s p = omega (arith, p.stored, p.ahead)
  left-le-cap size (e ∷ es) s p = elim (Bool-cases (leb size cache_cap_bytes)) [
    | inl small ↦ rw small (ground (arith, p.stored))
    | inr large ↦ rw large (
        left-le-cap (size - normalize_entry_size e) es (store.delete s e.key)
          (Pending-delete e es p))
  ]
