-- ===== src/Tests/Queries.antt =====
-- Queries of two users of one browser (Queries), over a cache that is a function of the key.
use go_grpc_microservices.Prelude.{
  ℕ, ◌+◌, ◌<◌, ◌≡◌, refl, String, Bool, true, false, ◌&&◌, Option, none, some, List, [], ◌∷◌, ◌==◌,
  eq_refl, leb, if◌then◌else◌, All, arith,
}
use go_grpc_microservices.Queries.{
  QueryKey, QueryCache, Session, generations, voice_playback, current_user, visit, data_of, log_out,
  set_access_token, run_query, options, bearer_auth_interceptor, get_voice_playback_url,
  list_generations,
}
use go_grpc_microservices.Queries.Sending.{
  Event, visited, token_set, logged_out, step, run, IsAuthorized, run-IsAuthorized,
}
use go_grpc_microservices.Queries.Users.{generations_left_to_next}

abbrev same_texts : List String → List String → Bool
same_texts [] [] = true
same_texts (x ∷ xs) (y ∷ ys) = let rest = same_texts xs ys in if x == y then rest else false
same_texts _ _ = false

same_texts_refl : (xs : List String) → same_texts xs xs ≡ true
same_texts_refl [] = refl
same_texts_refl (x ∷ xs) = rw (eq_refl x) (same_texts_refl xs)

abbrev same_flag : Bool → Bool → Bool
same_flag true b = b
same_flag false b = if b then false else true

same_flag_refl : (b : Bool) → same_flag b b ≡ true
same_flag_refl true = refl
same_flag_refl false = refl

abbrev same_key : QueryKey → QueryKey → Bool
same_key j k = j.name == k.name && same_texts j.texts k.texts && same_flag j.signed_in k.signed_in

same_key_refl : (k : QueryKey) → same_key k k ≡ true
same_key_refl k = rw (eq_refl k.name, same_texts_refl k.texts) (same_flag_refl k.signed_in)

-- Data, and when it was fetched.
abbrev Kept : Type 0
Kept = Option (ℕ × ℕ)

abbrev data_part : Kept → Option ℕ
data_part none = none
data_part (some (d, at)) = some d

abbrev is_stale : ℕ → ℕ → Kept → Bool
is_stale now stale none = true
is_stale now stale (some (d, at)) = leb (at + stale) now

abbrev keep : ℕ → QueryKey → ℕ → (QueryKey → Kept) → QueryKey → Kept
keep now k d c j = if same_key k j then some (d, now) else c j

abbrev remove : String → (QueryKey → Kept) → QueryKey → Kept
remove name c j = if j.name == name then none else c j

shown-keep :
    (now : ℕ) (k : QueryKey) (d : ℕ) (c : QueryKey → Kept) → data_part (keep now k d c k) ≡ some d
shown-keep now k d c = rw (same_key_refl k)

fetches-keep :
    (now later stale : ℕ) (k : QueryKey) (d : ℕ) (c : QueryKey → Kept)
    → later < now + stale
    → is_stale later stale (keep now k d c k) ≡ false
fetches-keep now later stale k d c h = rw (same_key_refl k) (ground arith)

fetches_of_none :
    (now stale : ℕ) (c : QueryKey → Kept) (k : QueryKey)
    → data_part (c k) ≡ none
    → is_stale now stale (c k) ≡ true
fetches_of_none now stale c k h = ground arith

shown-remove :
    (name : String) (c : QueryKey → Kept) (k : QueryKey)
    → data_part (remove name c k) ≡ (if k.name == name then none else data_part (c k))
shown-remove name c k = ground arith

fetches-remove :
    (name : String) (now stale : ℕ) (c : QueryKey → Kept) (k : QueryKey)
    → (k.name == name) ≡ false
    → is_stale now stale (remove name c k) ≡ is_stale now stale (c k)
fetches-remove name now stale c k h = rw h

abbrev cache : QueryCache ℕ
cache = record {
  Contents = QueryKey → Kept;
  shown = λ c k. data_part (c k);
  fetches = λ now stale c k. is_stale now stale (c k);
  keep = keep;
  remove = remove;
  shown-keep = shown-keep;
  fetches-keep = fetches-keep;
  fetches_of_none = fetches_of_none;
  shown-remove = shown-remove;
  fetches-remove = fetches-remove;
}

abbrev start : Session cache
start = record { access_token = none; contents = λ k. none; sent = [] }

abbrev signed_in : Session cache
signed_in = record start { access_token = some "a" }

nothing_shown : data_of cache generations signed_in ≡ none
unfolding data_of
nothing_shown = refl

generations_left_to_next_example :
    let t =
      set_access_token cache
        (some "b")
        (log_out cache (visit cache 1000 generations 0 (some 7) signed_in)) in
    (data_of cache generations t ≡ some 7) × (visit cache 9000 generations 0 (some 8) t ≡ t)
generations_left_to_next_example =
    generations_left_to_next cache 1000 9000 "a" "b" 0 7 (some 8) signed_in refl refl refl
      nothing_shown (omega arith)

abbrev events : List (Event cache)
events =
    visited 1 current_user 0 (some 7)
    ∷ (token_set (some "a")
        ∷ (visited 2 generations 0 (some 7)
            ∷ (logged_out ∷ (visited 3 (voice_playback "v1" true) 0 none ∷ []))))

-- The last request is sent without a token.
lookup_sent :
    (run cache start events).sent
    ≡ (none, get_voice_playback_url "v1") ∷ ((some "a", list_generations) ∷ [])
unfolding visit run_query options log_out set_access_token bearer_auth_interceptor step
lookup_sent = refl

run-IsAuthorized_example : All (IsAuthorized cache) (run cache start events).sent
run-IsAuthorized_example = run-IsAuthorized cache events start tt
