-- ===== src/AudioCache/Eviction/Rounds.antt =====
-- What the eviction loop does, by induction on its rounds: order, need, and the newest entry.
use go_grpc_microservices.Prelude.{
  ℕ, ◌+◌, ◌-◌, ◌≤◌, ◌<◌, ◌≡◌, refl, sym, ap, subst, false, none, some, List, [], ◌∷◌, ◌⊎◌, arith,
  leb, eq_refl, Bool-cases, inl, inr, All, All-In, In,
}
use go_grpc_microservices.ObjectStore.{ObjectStore, get-delete}
use go_grpc_microservices.AudioCache.Entry.{
  CacheEntry, entry_key, normalize_entry_size, recency, total,
}
use go_grpc_microservices.AudioCache.Eviction.{cache_cap_bytes, evict_from}
use go_grpc_microservices.AudioCache.Eviction.Loop.{
  Pending, Pending-delete, absent-evict_from, evict_from_small, left, total-delete,
}

module _ (store : ObjectStore entry_key) where
  pub oldest_first_loop :
      (size : ℕ) (es : List CacheEntry) (s : store.Contents)
      → Pending store size es s
      → (e f : CacheEntry) → In e es
      → In f es
      → store.get (evict_from store size es s) e.key ≡ none
      → store.get (evict_from store size es s) f.key ≡ some f
      → recency e ≤ recency f
  unfolding evict_from
  oldest_first_loop size [] s p e f i j gone kept = absurd i
  oldest_first_loop size (x ∷ xs) s p e f i j gone kept =
      elim (Bool-cases (leb size cache_cap_bytes)) [
        | inl small ↦ absurd (still (rw small at gone))
        | inr large ↦
            visit
              (oldest_first_loop (size - normalize_entry_size x) xs (store.delete s x.key)
                (Pending-delete store x xs p) e f)
              (rw large at gone) (rw large at kept) i j
      ]
    where
      still : store.get s e.key ≡ none → ⊥
      still h = cc (h, All-In (λ g. store.get s g.key ≡ some g) (x ∷ xs) p.present i)

      deleted : store.Contents
      deleted = evict_from store (size - normalize_entry_size x) xs (store.delete s x.key)

      x_gone : store.get deleted x.key ≡ none
      x_gone =
          absent-evict_from store (size - normalize_entry_size x) xs (store.delete s x.key) x.key
            (ground (arith, get-delete store s x.key x.key, eq_refl x.key))

      visit :
          (In e xs
            → In f xs
            → store.get deleted e.key ≡ none
            → store.get deleted f.key ≡ some f
            → recency e ≤ recency f)
          → store.get deleted e.key ≡ none
          → store.get deleted f.key ≡ some f
          → In e (x ∷ xs)
          → In f (x ∷ xs)
          → recency e ≤ recency f
      visit ih gone' kept' i' (inl q) = absurd (ground (arith, x_gone, q))
      visit ih gone' kept' (inl q) (inr j') =
          subst (λ g. recency g ≤ recency f) (sym q)
            (All-In (λ g. recency x ≤ recency g) xs p.sorted.0 j')
      visit ih gone' kept' (inr i') (inr j') = ih i' j' gone' kept'

  pub needed_loop :
      (size : ℕ) (es : List CacheEntry) (s : store.Contents)
      → Pending store size es s
      → cache_cap_bytes < size
      → (e : CacheEntry) × In e es
        × (store.get (evict_from store size es s) e.key ≡ none)
        × (cache_cap_bytes < left store size es s + normalize_entry_size e)
  unfolding evict_from total
  needed_loop size [] s p h = absurd (omega (arith, p.ahead))
  needed_loop size (x ∷ xs) s p h = elim (Bool-cases (leb size cache_cap_bytes)) [
    | inl small ↦ absurd (ground arith)
    | inr large ↦ elim (Bool-cases (leb (size - normalize_entry_size x) cache_cap_bytes)) [
      | inl last ↦ last_round large (evict_from_small store _ xs (store.delete s x.key) last)
      | inr more ↦
          let (e, i, gone, tight) =
            needed_loop (size - normalize_entry_size x) xs (store.delete s x.key)
              (Pending-delete store x xs p) (ground arith) in
          (e, inr i, rw large gone, rw large tight)
    ]
  ]
    where
      last_round :
          leb size cache_cap_bytes ≡ false
          → evict_from store (size - normalize_entry_size x) xs (store.delete s x.key)
            ≡ store.delete s x.key
          → (e : CacheEntry) × In e (x ∷ xs)
            × (store.get (evict_from store size (x ∷ xs) s) e.key ≡ none)
            × (cache_cap_bytes < left store size (x ∷ xs) s + normalize_entry_size e)
      last_round large stop = (
        x,
        inl refl,
        rw (large, stop) (ground (arith, get-delete store s x.key x.key, eq_refl x.key)),
        rw (large, stop) (omega (arith, total-delete store x s p.present.0, p.stored)),
      )

  -- Behind a newest entry nothing is left to visit.
  newest_alone :
      (size : ℕ) (x : CacheEntry) (xs : List CacheEntry) (s : store.Contents)
      → Pending store size (x ∷ xs) s
      → normalize_entry_size x ≤ cache_cap_bytes
      → All (λ e. (e ≡ x) ⊎ (recency e < recency x)) xs
      → size ≤ cache_cap_bytes
  unfolding total
  newest_alone size x [] s p fits newest = omega (arith, p.ahead)
  newest_alone size x (y ∷ ys) s p fits (inl q, rest) = absurd (p.differ.0.0 (ap entry_key (sym q)))
  newest_alone size x (y ∷ ys) s p fits (inr lt, rest) = absurd (omega (arith, p.sorted.0.0))

  -- A newest entry that fits alone is what the loop would visit last, and it is kept.
  pub newest_loop :
      (size : ℕ) (es : List CacheEntry) (s : store.Contents)
      → Pending store size es s
      → (f : CacheEntry) → In f es
      → normalize_entry_size f ≤ cache_cap_bytes
      → All (λ e. (e ≡ f) ⊎ (recency e < recency f)) es
      → store.get (evict_from store size es s) f.key ≡ some f
  unfolding evict_from total
  newest_loop size [] s p f i fits newest = absurd i
  newest_loop size (x ∷ xs) s p f i fits newest = elim (Bool-cases (leb size cache_cap_bytes)) [
    | inl small ↦ rw small (All-In (λ g. store.get s g.key ≡ some g) (x ∷ xs) p.present i)
    | inr large ↦ rw large (
        visit large i (
          newest_loop (size - normalize_entry_size x) xs (store.delete s x.key)
            (Pending-delete store x xs p) f))
  ]
    where
      deleted : store.Contents
      deleted = evict_from store (size - normalize_entry_size x) xs (store.delete s x.key)

      small_size : f ≡ x → size ≤ cache_cap_bytes
      small_size q =
          newest_alone size x xs s p (subst (λ g. normalize_entry_size g ≤ cache_cap_bytes) q fits)
            (subst (λ g. All (λ e. (e ≡ g) ⊎ (recency e < recency g)) xs) q newest.1)

      visit :
          leb size cache_cap_bytes ≡ false
          → In f (x ∷ xs)
          → (In f xs
              → normalize_entry_size f ≤ cache_cap_bytes
              → All (λ e. (e ≡ f) ⊎ (recency e < recency f)) xs
              → store.get deleted f.key ≡ some f)
          → store.get deleted f.key ≡ some f
      visit large (inl q) ih = let small = small_size q in absurd (ground arith)
      visit large (inr j) ih = ih j fits newest.1
