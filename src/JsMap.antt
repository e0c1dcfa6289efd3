-- ===== src/JsMap.antt =====
-- JavaScript's `Map` with string keys: entries in insertion order, a key written again keeps its
-- place.
use go_grpc_microservices.Prelude.{
  String, ◌≡◌, refl, subst, Bool, false, Option, none, some, List, [], ◌∷◌, arith, ◌==◌, eq_iff,
  if◌then◌else◌, All, Bool-cases, inl, inr,
}

abbrev pub JsMap : Type 0 → Type 0
JsMap V = List (String × V)

module _ {V : Type 0} where
  -- `map.get(key)`
  unfoldable pub map_get : String → JsMap V → Option V
  map_get k [] = none
  map_get k ((j, v) ∷ m) = if j == k then some v else map_get k m

  -- `map.set(key, value)`
  unfoldable pub map_set : String → V → JsMap V → JsMap V
  map_set k v [] = (k, v) ∷ []
  map_set k v ((j, w) ∷ m) = if j == k then (k, v) ∷ m else (j, w) ∷ map_set k v m

  -- `map.delete(key)`
  unfoldable pub map_delete : String → JsMap V → JsMap V
  map_delete k [] = []
  map_delete k ((j, v) ∷ m) = let rest = map_delete k m in if j == k then rest else (j, v) ∷ rest

  -- A loop over the entries that deletes those that pass a test.
  unfoldable pub map_delete_if : (V → Bool) → JsMap V → JsMap V
  map_delete_if p [] = []
  map_delete_if p ((j, v) ∷ m) = let rest = map_delete_if p m in if p v then rest else (j, v) ∷ rest

  pub map_get-set :
      (k j : String) (v : V) (m : JsMap V)
      → map_get j (map_set k v m) ≡ (if k == j then some v else map_get j m)
  unfolding map_get map_set
  map_get-set k j v [] = refl
  map_get-set k j v ((i, w) ∷ m) =
      ground (arith, eq_iff k j, eq_iff i k, eq_iff i j, map_get-set k j v m)

  pub map_get-delete :
      (k j : String) (m : JsMap V)
      → map_get j (map_delete k m) ≡ (if k == j then none else map_get j m)
  unfolding map_get map_delete
  map_get-delete k j [] = ground arith
  map_get-delete k j ((i, w) ∷ m) =
      ground (arith, eq_iff k j, eq_iff i k, eq_iff i j, map_get-delete k j m)

  -- An entry that does not pass the test stays.
  pub map_get-delete_if :
      (p : V → Bool) (k : String) (m : JsMap V) (v : V)
      → map_get k m ≡ some v
      → p v ≡ false
      → map_get k (map_delete_if p m) ≡ some v
  unfolding map_get map_delete_if
  map_get-delete_if p k [] v h q = h
  map_get-delete_if p k ((j, w) ∷ m) v h q = ground (arith, map_get-delete_if p k m v)

  module _ (P : String × V → Type 0) where
    pub All-map_get : (k : String) (m : JsMap V) {v : V} → All P m → map_get k m ≡ some v → P (k, v)
    unfolding map_get
    All-map_get k [] a h = cc
    All-map_get k ((j, w) ∷ m) {v} a h = elim (Bool-cases (j == k)) [
      | inl e ↦
          let same : ◌≡◌ {A = String × V} (j, w) (k, v) = ground (arith, eq_iff j k) in
          subst P same a.0
      | inr e ↦ All-map_get k m a.1 (ground arith)
    ]

    pub All-map_set :
        (k : String) (v : V) (m : JsMap V) → P (k, v) → All P m → All P (map_set k v m)
    unfolding map_set
    All-map_set k v [] p a = (p, tt)
    All-map_set k v ((j, w) ∷ m) p a = elim (Bool-cases (j == k)) [
      | inl e ↦ rw e (p, a.1)
      | inr e ↦ rw e (a.0, All-map_set k v m p a.1)
    ]

    pub All-map_delete_if : (q : V → Bool) (m : JsMap V) → All P m → All P (map_delete_if q m)
    unfolding map_delete_if
    All-map_delete_if q [] a = tt
    All-map_delete_if q ((j, w) ∷ m) a = elim (Bool-cases (q w)) [
      | inl e ↦ rw e (All-map_delete_if q m a.1)
      | inr e ↦ rw e (a.0, All-map_delete_if q m a.1)
    ]

  -- What is left fails the test.
  pub map_delete_if-All :
      (q : V → Bool) (m : JsMap V) → All (λ e. q e.1 ≡ false) (map_delete_if q m)
  unfolding map_delete_if
  map_delete_if-All q [] = tt
  map_delete_if-All q ((j, w) ∷ m) = elim (Bool-cases (q w)) [
    | inl e ↦ rw e (map_delete_if-All q m)
    | inr e ↦ rw e (e, map_delete_if-All q m)
  ]
