-- ===== src/AudioCache/Entry.antt =====
-- The records of the two object stores, their size and their place in the eviction order
-- (web/src/lib/audio-cache.ts).
use go_grpc_microservices.Prelude.{
  ℕ, ◌+◌, ◌≤◌, ◌≡◌, refl, String, List, [], ◌∷◌, suc, arith, ltb, leb, nat_eq, if◌then◌else◌,
  Bool-cases, inl, inr, All,
}

-- A blob: its bytes, and its media type.
pub record Blob : Type 0 where
  pub bytes : List ℕ
  pub media : String

abbrev length : List ℕ → ℕ
length [] = 0
length (b ∷ bs) = suc (length bs)

-- `blob.size`
unfoldable pub blob_size : Blob → ℕ
blob_size b = length b.bytes

-- `CacheEntry`. A number that an older version of the page did not write reads as 0: the code
-- tests each of them by `||` or `> 0`, which take `undefined` and 0 alike.
pub record CacheEntry : Type 0 where
  pub key : String
  pub blob : Blob
  pub timestamp : ℕ
  pub last_accessed : ℕ
  pub size_bytes : ℕ

pub record VoiceProviderKeyEntry : Type 0 where
  pub voice_id : String
  pub provider_key : String
  pub updated_at : ℕ

abbrev pub entry_key : CacheEntry → String
entry_key e = e.key

abbrev pub entry_voice_id : VoiceProviderKeyEntry → String
entry_voice_id e = e.voice_id

-- `normalizeEntrySize`
unfoldable pub normalize_entry_size : CacheEntry → ℕ
normalize_entry_size e = if ltb 0 e.size_bytes then e.size_bytes else blob_size e.blob

-- `entry.lastAccessed || entry.timestamp || 0`
unfoldable pub recency : CacheEntry → ℕ
recency e = if nat_eq e.last_accessed 0 then e.timestamp else e.last_accessed

-- `entries.reduce((sum, entry) => sum + normalizeEntrySize(entry), 0)`
unfoldable pub sum_from : ℕ → List CacheEntry → ℕ
sum_from sum [] = sum
sum_from sum (e ∷ es) = sum_from (sum + normalize_entry_size e) es

unfoldable pub insert_by_recency : CacheEntry → List CacheEntry → List CacheEntry
insert_by_recency e [] = e ∷ []
insert_by_recency e (f ∷ fs) =
    if leb (recency e) (recency f) then e ∷ f ∷ fs else f ∷ insert_by_recency e fs

-- `[...entries].sort(…)`: ascending, and entries with equal keys keep their order.
unfoldable pub eviction_order : List CacheEntry → List CacheEntry
eviction_order [] = []
eviction_order (e ∷ es) = insert_by_recency e (eviction_order es)

-- The size of a list as a plain sum.
unfoldable pub total : List CacheEntry → ℕ
total [] = 0
total (e ∷ es) = normalize_entry_size e + total es

pub sum_from-total : (sum : ℕ) (es : List CacheEntry) → sum_from sum es ≡ sum + total es
unfolding sum_from total
sum_from-total sum [] = omega arith
sum_from-total sum (e ∷ es) = omega (arith, sum_from-total (sum + normalize_entry_size e) es)

total-insert :
    (e : CacheEntry) (es : List CacheEntry)
    → total (insert_by_recency e es) ≡ normalize_entry_size e + total es
unfolding total insert_by_recency
total-insert e [] = refl
total-insert e (f ∷ fs) = ground (arith, total-insert e fs)

pub total-eviction_order : (es : List CacheEntry) → total (eviction_order es) ≡ total es
unfolding total eviction_order
total-eviction_order [] = refl
total-eviction_order (e ∷ es) =
    omega (arith, total-insert e (eviction_order es), total-eviction_order es)

-- Ascending recency.
abbrev pub IsSorted : List CacheEntry → Type 0
IsSorted [] = Unit
IsSorted (e ∷ es) = All (λ f. recency e ≤ recency f) es × IsSorted es

pub All-insert :
    (P : CacheEntry → Type 0) (e : CacheEntry) (es : List CacheEntry)
    → P e
    → All P es
    → All P (insert_by_recency e es)
unfolding insert_by_recency
All-insert P e [] p h = (p, tt)
All-insert P e (f ∷ fs) p h = elim (Bool-cases (leb (recency e) (recency f))) [
  | inl t ↦ rw t (p, h)
  | inr t ↦ rw t (h.0, All-insert P e fs p h.1)
]

pub All-eviction_order :
    (P : CacheEntry → Type 0) (es : List CacheEntry) → All P es → All P (eviction_order es)
unfolding eviction_order
All-eviction_order P [] h = tt
All-eviction_order P (e ∷ es) h =
    All-insert P e (eviction_order es) h.0 (All-eviction_order P es h.1)

All-le_trans :
    (n m : ℕ) (es : List CacheEntry)
    → n ≤ m
    → All (λ f. m ≤ recency f) es
    → All (λ f. n ≤ recency f) es
All-le_trans n m [] h k = tt
All-le_trans n m (e ∷ es) h k = (omega arith, All-le_trans n m es h k.1)

insert-IsSorted :
    (e : CacheEntry) (es : List CacheEntry) → IsSorted es → IsSorted (insert_by_recency e es)
unfolding insert_by_recency
insert-IsSorted e [] h = (tt, tt)
insert-IsSorted e (f ∷ fs) h = elim (Bool-cases (leb (recency e) (recency f))) [
  | inl t ↦
      let below : recency e ≤ recency f = ground arith in
      rw t ((below, All-le_trans _ _ fs below h.0), h)
  | inr t ↦
      rw t
        (All-insert (λ g. recency f ≤ recency g) e fs (ground arith) h.0, insert-IsSorted e fs h.1)
]

pub eviction_order-IsSorted : (es : List CacheEntry) → IsSorted (eviction_order es)
unfolding eviction_order
eviction_order-IsSorted [] = tt
eviction_order-IsSorted (e ∷ es) =
    insert-IsSorted e (eviction_order es) (eviction_order-IsSorted es)
