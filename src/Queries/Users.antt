-- ===== src/Queries/Users.antt =====
-- What one user's log-out leaves for the next (Queries).
use go_grpc_microservices.Prelude.{
  ℕ, ◌+◌, ◌*◌, ◌<◌, ◌≡◌, refl, ◌∙◌, ap, String, true, false, Option, none, some, [], ◌∷◌, arith,
}
use go_grpc_microservices.Text.{is_empty}
use go_grpc_microservices.Queries.{
  QueryCache, Session, generations, current_user, use_generations, use_current_user, visit, data_of,
  log_out, set_access_token, get_current_user, QueryKey,
}

module _ {D : Type 0} (cache : QueryCache D) where
  -- The key of a user's query, whoever is signed in.
  abbrev key_of : String → QueryKey
  key_of name = record { name = name; texts = []; signed_in = true }

  generations_visited :
      (now : ℕ) (token : String) (empty d : D) (s : Session cache)
      → s.access_token ≡ some token
      → is_empty token ≡ false
      → data_of cache generations s ≡ none
      → (visit cache now generations empty (some d) s).contents
        ≡ cache.keep now (key_of "generations") d s.contents
  unfolding visit data_of use_generations
  generations_visited now token empty d s p h l =
      ground (arith, cache.fetches_of_none now 30000 s.contents (key_of "generations"))

  -- What was fetched before a log-out is shown, and not fetched again, after the next log-in.
  generations_kept :
      (now later : ℕ) (next : String) (empty d : D) (other : Option D) (c : cache.Contents)
      (t : Session cache)
      → t.contents ≡ cache.keep now (key_of "generations") d c
      → is_empty next ≡ false
      → later < now + 30 * 1000
      → let u = set_access_token cache (some next) (log_out cache t) in
        (data_of cache generations u ≡ some d) × (visit cache later generations empty other u ≡ u)
  unfolding visit data_of log_out set_access_token use_generations
  generations_kept now later next empty d other c t e k m =
      let shown : cache.shown (cache.remove "currentUser" t.contents) (key_of "generations")
          ≡ some d =
        cache.shown-remove "currentUser" t.contents (key_of "generations")
        ∙ (ap (λ x. cache.shown x (key_of "generations")) e
            ∙ cache.shown-keep now (key_of "generations") d c) in
      let quiet : cache.fetches later 30000 (cache.remove "currentUser" t.contents)
            (key_of "generations")
          ≡ false =
        cache.fetches-remove "currentUser" later 30000 t.contents (key_of "generations") refl
        ∙ (ap (λ x. cache.fetches later 30000 x (key_of "generations")) e
            ∙ cache.fetches-keep now later 30000 (key_of "generations") d c m) in
      (ground arith, ground arith)

  -- A log-out forgets who the user was: after the next log-in nothing is shown of the user before,
  -- and the service is asked who the new one is, with the new token.
  current_user_asked_again :
      (now : ℕ) (token : String) (empty : D) (answer : Option D) (s : Session cache)
      → is_empty token ≡ false
      → let t = set_access_token cache (some token) (log_out cache s) in
        (data_of cache current_user t ≡ none)
        × ((visit cache now current_user empty answer t).sent
            ≡ (some token, get_current_user) ∷ s.sent)
  unfolding visit data_of log_out set_access_token use_current_user
  current_user_asked_again now token empty answer s h =
      let gone : cache.shown (cache.remove "currentUser" s.contents) (key_of "currentUser") ≡ none =
        cache.shown-remove "currentUser" s.contents (key_of "currentUser") in
      (
        ground arith,
        ground (
          arith,
          cache.fetches_of_none now 300000 (cache.remove "currentUser" s.contents)
              (key_of "currentUser"),
        ),
      )

  -- A log-out leaves the list of generations: if it was fetched less than 30 seconds ago, the next
  -- user of the browser is shown the list of the user before, and the service is not asked.
  pub generations_left_to_next :
      (now later : ℕ) (first next : String) (empty d : D) (other : Option D) (s : Session cache)
      → s.access_token ≡ some first
      → is_empty first ≡ false
      → is_empty next ≡ false
      → data_of cache generations s ≡ none
      → later < now + 30 * 1000
      → let t =
          set_access_token cache
            (some next)
            (log_out cache (visit cache now generations empty (some d) s)) in
        (data_of cache generations t ≡ some d) × (visit cache later generations empty other t ≡ t)
  unfolding visit data_of log_out set_access_token use_generations
  generations_left_to_next now later first next empty d other s p h k l m =
      generations_kept now later next empty d other s.contents
        (visit cache now generations empty (some d) s)
        (generations_visited now first empty d s p h l) k m
