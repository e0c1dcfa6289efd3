-- ===== src/AuthActions/Cookies.antt =====
-- What the actions do to the cookies, and what their callers receive.
use go_grpc_microservices.Prelude.{
  ℕ, ◌≡◌, refl, String, Bool, false, none, some, if◌then◌else◌, arith, nat_eq,
}
use go_grpc_microservices.Async.{rejected}
use go_grpc_microservices.Text.{is_empty}
use go_grpc_microservices.ObjectStore.{find}
use go_grpc_microservices.AuthActions.{
  refresh_cookie, Call, call_key, Server, cookie_token, no_session, tokens, failure, refresh_start,
  refresh_finish, logout, require_access_token,
}

module _ (hash : String → String) (production : Bool) where
  -- New tokens in answer to a call under way replace the refresh token in the cookies of the
  -- request that made it, and in no others, and give the access token to all that wait.
  refresh_finish_tokens :
      (key : String) (c : Call) (s : Server) (a b : String) (r : ℕ)
      → find call_key key s.calls ≡ some c
      → is_empty b ≡ false
      → let done = refresh_finish hash production key (tokens a b) s in
        (done.0 ≡ some a)
        × (cookie_token (done.1.cookies r)
            ≡ (if nat_eq c.request r then some b else cookie_token (s.cookies r)))
  unfolding refresh_finish refresh_cookie cookie_token
  refresh_finish_tokens key c s a b r e n = (ground arith, ground arith)

  -- A failure in answer to a call under way deletes the cookie of the request that made it, and no
  -- other, and all that wait receive no token, which an action that requires one turns into
  -- "Unauthorized".
  refresh_finish_failure :
      (key : String) (c : Call) (s : Server) (r : ℕ)
      → find call_key key s.calls ≡ some c
      → let done = refresh_finish hash production key failure s in
        (require_access_token done.0 ≡ rejected "Unauthorized")
        × (done.1.cookies r ≡ (if nat_eq c.request r then none else s.cookies r))
  unfolding refresh_finish require_access_token
  refresh_finish_failure key c s r e = (ground arith, ground arith)

  -- Logging out deletes the cookie of the request whatever the service answers, and asks the
  -- service to revoke exactly the token that the cookie held; until the request logs in or a call
  -- that it made is answered, refreshing yields no session.
  logout_lem :
      (r : ℕ) (s : Server)
      → let after = logout hash production r s in
        (after.0 ≡ cookie_token (s.cookies r))
        × (after.1.cookies r ≡ none)
        × (refresh_start hash production r after.1 ≡ (no_session, after.1))
  unfolding logout refresh_start cookie_token
  logout_lem r s = (refl, ground arith, ground arith)
