-- ===== src/ObjectStore.antt =====
-- An IndexedDB object store as the browser documents it: records that are reached by the value at
-- a key path. The browser's database is not code of the repository, so it is an interface that
-- the clients take as a parameter; `list_store` meets it.
use go_grpc_microservices.Prelude.{
  String, ◌≡◌, refl, sym, ap, ◌∙◌, ◌≢◌, ◌⊎◌, inl, inr, Option, none, some, List, [], ◌∷◌, arith,
  ◌==◌, eq_iff, eq_refl, if◌then◌else◌, Bool-cases, In,
}

module _ {V : Type 0} (key : V → String) where
  -- The first record with the key.
  abbrev pub find : String → List V → Option V
  find k [] = none
  find k (v ∷ vs) = if key v == k then some v else find k vs

  -- The records with another key, in their order.
  abbrev pub without : String → List V → List V
  without k [] = []
  without k (v ∷ vs) = let rest = without k vs in if key v == k then rest else v ∷ rest

  -- No two records share a key.
  abbrev pub Distinct : List V → Type 0
  Distinct [] = Unit
  Distinct (v ∷ vs) = (find (key v) vs ≡ none) × Distinct vs

  pub find-without :
      (k j : String) (vs : List V) → find j (without k vs) ≡ (if k == j then none else find j vs)
  find-without k j [] = ground arith
  find-without k j (v ∷ vs) =
      ground (arith, find-without k j vs, eq_iff (key v) k, eq_iff (key v) j, eq_iff k j)

  pub without-Distinct : (k : String) (vs : List V) → Distinct vs → Distinct (without k vs)
  without-Distinct k [] d = tt
  without-Distinct k (v ∷ vs) d =
      ground (arith, find-without k (key v) vs, without-Distinct k vs d.1)

  pub without_absent : (k : String) (vs : List V) → find k vs ≡ none → without k vs ≡ vs
  without_absent k [] h = refl
  without_absent k (v ∷ vs) h = ground (arith, without_absent k vs)

  -- In a list with distinct keys every member is what its key finds.
  pub find_of_In : (vs : List V) {v : V} → Distinct vs → In v vs → find (key v) vs ≡ some v
  find_of_In [] d i = absurd i
  find_of_In (w ∷ vs) {v} d (inl e) = ground (arith, eq_refl (key w))
  find_of_In (w ∷ vs) {v} d (inr i) =
      let rest = find_of_In vs d.1 i in ground (arith, eq_iff (key w) (key v))

  pub In-of_find : (k : String) (vs : List V) {v : V} → find k vs ≡ some v → In v vs × (key v ≡ k)
  In-of_find k [] h = cc
  In-of_find k (w ∷ vs) {v} h = elim (Bool-cases (key w == k)) [
    | inl e ↦ (inl (ground arith), ground (arith, eq_iff (key w) k))
    | inr e ↦ let rest = In-of_find k vs {v = v} (ground arith) in (inr rest.0, rest.1)
  ]

  -- What the browser documents of an object store with this key path. `get_all` lists every
  -- record; nothing is asked of its order but that a deletion keeps it.
  pub record ObjectStore : Type 1 where
    pub Contents : Type 0
    pub get_all : Contents → List V
    pub get : Contents → String → Option V
    pub put : Contents → V → Contents
    pub delete : Contents → String → Contents
    pub clear : Contents → Contents
    pub get_lem : (s : Contents) (k : String) → get s k ≡ find k (get_all s)
    pub get_all-Distinct : (s : Contents) → Distinct (get_all s)
    pub get-put :
        (s : Contents) (v : V) (k : String)
        → get (put s v) k ≡ (if key v == k then some v else get s k)
    pub get_all-delete : (s : Contents) (k : String) → get_all (delete s k) ≡ without k (get_all s)
    pub get_all-clear : (s : Contents) → get_all (clear s) ≡ []

  -- A store kept as a list with distinct keys.
  abbrev Table : Type 0
  Table = (vs : List V) × Distinct vs

  pub find-without_self : (k : String) (vs : List V) → find k (without k vs) ≡ none
  find-without_self k vs = ground (arith, find-without k k vs, eq_refl k)

  abbrev put_table : Table → V → Table
  put_table t v =
      (v ∷ without (key v) t.0, (find-without_self (key v) t.0, without-Distinct (key v) t.0 t.1))

  abbrev delete_table : Table → String → Table
  delete_table t k = (without k t.0, without-Distinct k t.0 t.1)

  pub find-put_table :
      (t : Table) (v : V) (k : String)
      → find k (put_table t v).0 ≡ (if key v == k then some v else find k t.0)
  find-put_table t v k = ground (arith, find-without (key v) k t.0)

  -- The interface can be met.
  abbrev pub list_store : ObjectStore
  list_store = record {
    Contents = Table;
    get_all = λ t. t.0;
    get = λ t k. find k t.0;
    put = put_table;
    delete = delete_table;
    clear = λ t. ([], tt);
    get_lem = λ t k. refl;
    get_all-Distinct = λ t. t.1;
    get-put = find-put_table;
    get_all-delete = λ t k. refl;
    get_all-clear = λ t. refl;
  }

module _ {V : Type 0} {key : V → String} (o : ObjectStore key) where
  pub get-delete :
      (s : o.Contents) (k j : String)
      → o.get (o.delete s k) j ≡ (if k == j then none else o.get s j)
  get-delete s k j = ground (
    arith,
    o.get_lem (o.delete s k) j,
    ap (find key j) (o.get_all-delete s k),
    find-without key k j (o.get_all s),
    o.get_lem s j,
  )

  pub get-clear : (s : o.Contents) (k : String) → o.get (o.clear s) k ≡ none
  get-clear s k = rw (o.get_lem, o.get_all-clear)

  -- The records of a store are those that a key reaches.
  pub get_of_In : (s : o.Contents) {v : V} → In v (o.get_all s) → o.get s (key v) ≡ some v
  get_of_In s i = o.get_lem s _ ∙ find_of_In key (o.get_all s) (o.get_all-Distinct s) i

  pub In-of_get :
      (s : o.Contents) (k : String) {v : V} → o.get s k ≡ some v → In v (o.get_all s) × (key v ≡ k)
  In-of_get s k h = In-of_find key k (o.get_all s) (sym (o.get_lem s k) ∙ h)

  -- After a write the store holds the new record and the old ones with other keys.
  pub In-put :
      (s : o.Contents) (v w : V)
      → In w (o.get_all (o.put s v))
      → (w ≡ v) ⊎ (In w (o.get_all s) × (key v ≢ key w))
  In-put s v w i = elim (Bool-cases (key v == key w)) [
    | inl e ↦ inl (ground (arith, get_of_In (o.put s v) i, o.get-put s v (key w)))
    | inr e ↦ inr (
      (In-of_get s (key w) (ground (arith, get_of_In (o.put s v) i, o.get-put s v (key w)))).0,
      ground (arith, eq_iff (key v) (key w)),
    )
  ]
