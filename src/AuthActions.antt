-- ===== src/AuthActions.antt =====
-- web/src/actions/auth.ts: the server actions that refresh, require and revoke a session.
pub mod Dedup
pub mod Cookies
use go_grpc_microservices.Prelude.{
  ℕ, ◌*◌, String, Bool, true, false, not, Option, none, some, List, [], ◌∷◌, ◌++◌, ◌==◌, nat_eq,
  if◌then◌else◌,
}
use go_grpc_microservices.Async.{Settled, resolved, rejected}
use go_grpc_microservices.Text.{is_empty}
use go_grpc_microservices.JsMap.{JsMap, map_get, map_set, map_delete}
use go_grpc_microservices.ObjectStore.{find, without}

-- The cookie that `setRefreshCookie` writes.
pub record RefreshCookie : Type 0 where
  pub value : String
  pub http_only : Bool
  pub secure : Bool
  pub same_site : String
  pub path : String
  pub max_age : ℕ

unfoldable pub refresh_cookie : Bool → String → RefreshCookie
refresh_cookie production token = record {
  value = token;
  http_only = true;
  secure = production;
  same_site = "lax";
  path = "/";
  max_age = 7 * 24 * 60 * 60;
}

-- A call of `authRpcClient.refreshToken` that has not been answered: the request that made it,
-- the key it is registered under, and the token that it sent.
pub record Call : Type 0 where
  pub request : ℕ
  pub dedup_key : String
  pub refresh_token : String

abbrev pub call_key : Call → String
call_key c = c.dedup_key

-- `serverInflightRefresh`, which maps a key to the promise of the request that registered it; the
-- calls under way; the cookie store of each request.
pub record Server : Type 0 where
  pub inflight : JsMap ℕ
  pub calls : List Call
  pub cookies : ℕ → Option RefreshCookie

abbrev set_cookie : ℕ → Option RefreshCookie → (ℕ → Option RefreshCookie) → ℕ → Option RefreshCookie
set_cookie request cookie cookies r = if nat_eq request r then cookie else cookies r

-- `cookieStore.get(…)?.value`, where the empty text counts as none (`if (!refreshToken)`)
unfoldable pub cookie_token : Option RefreshCookie → Option String
cookie_token none = none
cookie_token (some c) = if is_empty c.value then none else some c.value

-- What a request waits for.
pub data Wait : Type 0 where
  -- it has its answer, `null`
  no_session : Wait
  -- the promise that another request registered
  joined : ℕ → Wait
  -- its own call
  started : Wait

pub data Reply : Type 0 where
  tokens : String → String → Reply
  failure : Reply

-- `hash` is SHA-256 in hexadecimal, `production` the test on `NODE_ENV`.
module _ (hash : String → String) (production : Bool) where
  unfoldable pub register : ℕ → String → Server → Wait × Server
  register request token s = elim (map_get (hash token) s.inflight) [
    | some other ↦ (joined other, s)
    | none ↦ (
      started,
      record s {
        inflight = map_set (hash token) request s.inflight;
        calls =
            record { request = request; dedup_key = hash token; refresh_token = token } ∷ s.calls;
      },
    )
  ]

  -- `refreshAccessTokenAction` up to the answer of the service
  unfoldable pub refresh_start : ℕ → Server → Wait × Server
  unfolding cookie_token register
  refresh_start request s = elim (cookie_token (s.cookies request)) [
    | none ↦ (no_session, s)
    | some token ↦ register request token s
  ]

  -- `try … catch … finally` of the call, from the answer on
  unfoldable pub finish_call : Call → Reply → Server → Option String × Server
  finish_call c (tokens access_token refresh_token) s = (
    some access_token,
    record s {
      cookies = set_cookie c.request (some (refresh_cookie production refresh_token)) s.cookies;
      inflight = map_delete c.dedup_key s.inflight;
      calls = without call_key c.dedup_key s.calls;
    },
  )
  finish_call c failure s = (
    none,
    record s {
      cookies = set_cookie c.request none s.cookies;
      inflight = map_delete c.dedup_key s.inflight;
      calls = without call_key c.dedup_key s.calls;
    },
  )

  -- The service answers the call registered under a key: what all that wait for it receive.
  unfoldable pub refresh_finish : String → Reply → Server → Option String × Server
  unfolding finish_call
  refresh_finish key reply s = elim (find call_key key s.calls) [
    | none ↦ (none, s)
    | some c ↦ finish_call c reply s
  ]

  -- `logoutAction`: the token that is revoked, and the state afterwards, whatever the service
  -- answers.
  unfoldable pub logout : ℕ → Server → Option String × Server
  unfolding cookie_token
  logout request s =
      (cookie_token (s.cookies request), record s { cookies = set_cookie request none s.cookies })

  -- `setAuthCookies`
  unfoldable pub set_auth_cookies : ℕ → String → Server → Server
  set_auth_cookies request token s = record s {
    cookies = set_cookie request (some (refresh_cookie production token)) s.cookies;
  }

-- `requireAccessTokenAction`, from the answer of `refreshAccessTokenAction`
unfoldable pub require_access_token : Option String → Settled String
require_access_token none = rejected "Unauthorized"
require_access_token (some token) =
    if is_empty token then rejected "Unauthorized" else resolved token
