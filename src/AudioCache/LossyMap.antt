-- ===== src/AudioCache/LossyMap.antt =====
-- What the callers of the audio cache may count on, as an abstract map from keys to blobs: it may
-- lose what it holds, but makes nothing up. `AudioCache.Refinement` shows that the cache is one.
use go_grpc_microservices.Prelude.{
  ◌≡◌, sym, ◌∙◌, String, Option, none, some, List, [], ◌∷◌, ◌⊎◌, inl, inr,
}
use go_grpc_microservices.AudioCache.Entry.{Blob}

-- The calls on cached audio.
pub data Call : Type 0 where
  read : String → Call
  write : String → Blob → Call
  remove : String → Call
  clear : Call

abbrev pub Map : Type 0
Map = String → Option Blob

-- What a call may hand out and may make of the map.
abbrev pub IsStep : Map → Call → Option Blob → Map → Type 0
IsStep before (read key) out after =
    ((out ≡ none) ⊎ (out ≡ before key)) × ((k : String) → after k ≡ before k)
IsStep before (write key blob) out after =
    (out ≡ none)
    × ((k : String) → (after k ≡ none) ⊎ (after k ≡ before k) ⊎ ((key ≡ k) × (after k ≡ some blob)))
IsStep before (remove key) out after =
    (out ≡ none) × ((k : String) → (after k ≡ before k) ⊎ ((key ≡ k) × (after k ≡ none)))
IsStep before clear out after =
    (out ≡ none) × (((k : String) → after k ≡ before k) ⊎ ((k : String) → after k ≡ none))

-- Calls one after another, each with what it handed out.
pub data Trace : Map → List (Call × Option Blob) → Map → Type 1 where
  done : {m : Map} → Trace m [] m
  step :
      {m n p : Map} {c : Call} {out : Option Blob} {rest : List (Call × Option Blob)}
      → IsStep m c out n
      → Trace n rest p
      → Trace m ((c, out) ∷ rest) p

-- A call of these cached the blob under the key.
abbrev pub IsCached : String → Blob → List (Call × Option Blob) → Type 0
IsCached key blob [] = ⊥
IsCached key blob ((write k b, out) ∷ cs) = ((k ≡ key) × (b ≡ blob)) ⊎ IsCached key blob cs
IsCached key blob ((read k, out) ∷ cs) = IsCached key blob cs
IsCached key blob ((remove k, out) ∷ cs) = IsCached key blob cs
IsCached key blob ((clear, out) ∷ cs) = IsCached key blob cs

-- Such a map has nothing under a key but what it had and what calls cached there.
pub Trace-IsCached :
    {m n : Map} {cs : List (Call × Option Blob)} (key : String) (blob : Blob)
    → Trace m cs n
    → n key ≡ some blob
    → (m key ≡ some blob) ⊎ IsCached key blob cs
Trace-IsCached key blob Trace.done h = inl h
Trace-IsCached key blob (Trace.step {c = read k} st t) h = elim (Trace-IsCached key blob t h) [
  | inl e ↦ inl (sym (st.1 key) ∙ e)
  | inr i ↦ inr i
]
Trace-IsCached key blob (Trace.step {c = write k b} st t) h = elim (Trace-IsCached key blob t h) [
  | inl e ↦ elim (st.1 key) [
    | inl lost ↦ cc
    | inr (inl kept) ↦ inl (sym kept ∙ e)
    | inr (inr (same, own)) ↦ inr (inl (same, cc))
  ]
  | inr i ↦ inr (inr i)
]
Trace-IsCached key blob (Trace.step {c = remove k} st t) h = elim (Trace-IsCached key blob t h) [
  | inl e ↦ elim (st.1 key) [ inl kept ↦ inl (sym kept ∙ e) | inr (same, gone) ↦ cc ]
  | inr i ↦ inr i
]
Trace-IsCached key blob (Trace.step {c = clear} st t) h = elim (Trace-IsCached key blob t h) [
  | inl e ↦ elim st.1 [ inl kept ↦ inl (sym (kept key) ∙ e) | inr gone ↦ let g = gone key in cc ]
  | inr i ↦ inr i
]
