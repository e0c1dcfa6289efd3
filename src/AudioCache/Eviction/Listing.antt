-- ===== src/AudioCache/Eviction/Listing.antt =====
-- Lists of entries whose keys differ: sizes after a deletion, and the eviction order.
use go_grpc_microservices.Prelude.{
  ◌+◌, ◌≡◌, ◌≢◌, refl, sym, subst, String, none, some, List, [], ◌∷◌, arith, leb, eq_iff,
  Bool-cases, inl, inr, All, In,
}
use go_grpc_microservices.ObjectStore.{Distinct, find, without, without_absent}
use go_grpc_microservices.AudioCache.Entry.{
  CacheEntry, entry_key, normalize_entry_size, recency, total, All-insert, insert_by_recency,
  eviction_order, All-eviction_order,
}

-- Keys that differ pairwise.
abbrev pub KeysDiffer : List CacheEntry → Type 0
KeysDiffer [] = Unit
KeysDiffer (e ∷ es) = All (λ f. e.key ≢ f.key) es × KeysDiffer es

KeysDiffer_of_none :
    (k : String) (es : List CacheEntry) → find entry_key k es ≡ none → All (λ f. k ≢ f.key) es
KeysDiffer_of_none k [] h = tt
KeysDiffer_of_none k (e ∷ es) h =
    (ground (arith, eq_iff e.key k), KeysDiffer_of_none k es (ground arith))

pub KeysDiffer-of_Distinct : (es : List CacheEntry) → Distinct entry_key es → KeysDiffer es
KeysDiffer-of_Distinct [] d = tt
KeysDiffer-of_Distinct (e ∷ es) d = (KeysDiffer_of_none e.key es d.0, KeysDiffer-of_Distinct es d.1)

KeysDiffer-insert :
    (e : CacheEntry) (es : List CacheEntry)
    → All (λ f. e.key ≢ f.key) es
    → KeysDiffer es
    → KeysDiffer (insert_by_recency e es)
unfolding insert_by_recency
KeysDiffer-insert e [] h d = (tt, tt)
KeysDiffer-insert e (f ∷ fs) h d = elim (Bool-cases (leb (recency e) (recency f))) [
  | inl t ↦ rw t (h, d)
  | inr t ↦
      rw t (
        All-insert (λ g. f.key ≢ g.key) e fs (λ p. h.0 (sym p)) d.0,
        KeysDiffer-insert e fs h.1 d.1,
      )
]

pub total-without :
    (e : CacheEntry) (es : List CacheEntry)
    → find entry_key e.key es ≡ some e
    → Distinct entry_key es
    → total (without entry_key e.key es) + normalize_entry_size e ≡ total es
unfolding total
total-without e [] h d = cc
total-without e (f ∷ fs) h d =
    ground (arith, eq_iff f.key e.key, total-without e fs, without_absent entry_key e.key fs)

-- What the eviction order holds is what the list holds.
pub eviction_order-KeysDiffer :
    (es : List CacheEntry) → KeysDiffer es → KeysDiffer (eviction_order es)
unfolding eviction_order
eviction_order-KeysDiffer [] d = tt
eviction_order-KeysDiffer (e ∷ es) d =
    KeysDiffer-insert e (eviction_order es) (All-eviction_order (λ f. e.key ≢ f.key) es d.0)
      (eviction_order-KeysDiffer es d.1)

In-insert_self : (e : CacheEntry) (es : List CacheEntry) → In e (insert_by_recency e es)
unfolding insert_by_recency
In-insert_self e [] = inl refl
In-insert_self e (f ∷ fs) = elim (Bool-cases (leb (recency e) (recency f))) [
  | inl t ↦ rw t (inl refl)
  | inr t ↦ rw t (inr (In-insert_self e fs))
]

In-insert : (e f : CacheEntry) (es : List CacheEntry) → In f es → In f (insert_by_recency e es)
unfolding insert_by_recency
In-insert e f [] i = absurd i
In-insert e f (g ∷ gs) i = elim (Bool-cases (leb (recency e) (recency g))) [
  | inl t ↦ rw t (inr i)
  | inr t ↦ rw t (elim i [ inl p ↦ inl p | inr r ↦ inr (In-insert e f gs r) ])
]

pub In-eviction_order : (f : CacheEntry) (es : List CacheEntry) → In f es → In f (eviction_order es)
unfolding eviction_order
In-eviction_order f [] i = absurd i
In-eviction_order f (e ∷ es) (inl p) =
    subst (λ g. In g (insert_by_recency e (eviction_order es))) (sym p)
      (In-insert_self e (eviction_order es))
In-eviction_order f (e ∷ es) (inr i) = In-insert e f (eviction_order es) (In-eviction_order f es i)
