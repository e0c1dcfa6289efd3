-- ===== src/SignIn.antt =====
-- Signing in and out in the browser: the forms of web/src/modules/auth/components
-- (login-form.tsx and register-form.tsx), web/src/lib/auth-context.tsx, web/src/hooks/use-logout.ts
-- and `handleLogout` of web/src/components/user-button.tsx. They bring together the server actions
-- (`AuthActions`), which run in a request of this browser, and the browser's token (`TokenStore`).
pub mod Restoring
pub mod Cycle
use Prim.Native.Char.{code}
use Prim.Native.String
use go_grpc_microservices.Prelude.{
  ℕ, suc, ◌+◌, String, Bool, true, false, not, Option, none, some, List, [], ◌∷◌, leb, ltb,
  if◌then◌else◌,
}
use go_grpc_microservices.AuthActions.{Server, set_auth_cookies, logout}
use go_grpc_microservices.TokenStore.{
  TokenStore, set, Event, refresh, settled, failed, cancel, set_loaded, step,
}

-- The requests of the auth service, and the fields of an answer that are read.
pub data AuthRequest : Type 0 where
  login : String → String → AuthRequest
  register : String → String → String → AuthRequest

pub record Answer : Type 0 where
  pub access_token : String
  pub refresh_token : String

-- How the call of a server action ends: it is done and answered, it is done and the answer is
-- lost, or it does not reach the server.
pub data ActionEnd : Type 0 where
  answered : ActionEnd
  lost : ActionEnd
  unreached : ActionEnd

pub record LoginValues : Type 0 where
  pub email : String
  pub password : String

pub record RegisterValues : Type 0 where
  pub name : String
  pub email : String
  pub password : String

-- The length of a text, in UTF-16 code units.
abbrev utf16_length : String → ℕ
utf16_length String.[] = 0
utf16_length (String.◌∷◌ c s) = (if ltb (code c) 0x10000 then 1 else 2) + utf16_length s

-- The browser and the server behind it. The server's request `self` is any request of this
-- browser: they share its cookies.
pub record Client : Type 0 where
  pub server : Server
  pub store : TokenStore
  -- the requests sent to the auth service, newest first
  pub sent : List AuthRequest
  -- the page gone to, and how often it was refreshed
  pub route : Option String
  pub refreshed : ℕ
  -- whether the query client has data for the query "currentUser"; its other queries are in
  -- `Queries`
  pub has_current_user : Bool
  -- how often a failure was logged to the console
  pub logged : ℕ

-- `decode` and `hash` are as in `TokenStore` and `AuthActions`, `is_email` is the test of zod, and
-- `service` is what the auth service makes of a request; `none` is an exception.
module _ (decode : Option String → Option (Option ℕ)) (hash : String → String) (production : Bool)
    (is_email : String → Bool) (service : AuthRequest → Option Answer) (self : ℕ) where
  -- The two `formSchema`s
  unfoldable pub is_login_valid : LoginValues → Bool
  is_login_valid v = if is_email v.email then leb 6 (utf16_length v.password) else false

  unfoldable pub is_register_valid : RegisterValues → Bool
  is_register_valid v =
      if leb 2 (utf16_length v.name)
      then if is_email v.email then leb 6 (utf16_length v.password) else false
      else false

  abbrev log_error : Client → Client
  log_error s = record s { logged = suc s.logged }

  abbrev save_cookie : String → Client → Client
  save_cookie token s = record s { server = set_auth_cookies hash production self token s.server }

  -- The `try` from the answer of the service on, and the `catch`
  unfoldable pub sign_in : ℕ → ActionEnd → Answer → Client → Client
  sign_in now answered a s = record (save_cookie a.refresh_token s) {
    store = set decode now (some a.access_token) s.store;
    route = some "/dashboard";
  }
  sign_in now lost a s = log_error (save_cookie a.refresh_token s)
  sign_in now unreached a s = log_error s

  unfoldable pub attempt : ℕ → ActionEnd → AuthRequest → Client → Client
  unfolding sign_in
  attempt now end q s =
      let t = record s { sent = q ∷ s.sent } in
      elim (service q) [ none ↦ log_error t | some a ↦ sign_in now end a t ]

  -- `form.handleSubmit` of `LoginForm`
  unfoldable pub submit_login : ℕ → ActionEnd → LoginValues → Client → Client
  unfolding is_login_valid attempt
  submit_login now end v s =
      if is_login_valid v then attempt now end (login v.email v.password) s else s

  -- `form.handleSubmit` of `RegisterPage`
  unfoldable pub submit_register : ℕ → ActionEnd → RegisterValues → Client → Client
  unfolding is_register_valid attempt
  submit_register now end v s =
      if is_register_valid v then attempt now end (register v.name v.email v.password) s else s

  -- The function of `useLogout`, and `router.refresh()` after it; with the token that the server
  -- asks the service to revoke.
  unfoldable pub handle_logout : ℕ → ActionEnd → Client → Option String × Client
  handle_logout now answered s =
      let (revoked, server) = logout hash production self s.server in
      (
        revoked,
        record s {
          server = server;
          store = set decode now none s.store;
          has_current_user = false;
          refreshed = suc s.refreshed;
        },
      )
  handle_logout now lost s =
      let (revoked, server) = logout hash production self s.server in
      (revoked, record s { server = server })
  handle_logout now unreached s = (none, s)

module _ (decode : Option String → Option (Option ℕ)) where
  -- `AuthProvider`: the effect when it is shown, what follows the end of the refresh (`none` is a
  -- failure), and the cleanup when it goes.
  unfoldable pub provider_shown : TokenStore → TokenStore
  provider_shown s = step decode refresh s

  unfoldable pub provider_restored : ℕ → Option (Option String) → TokenStore → TokenStore
  provider_restored now none s = step decode set_loaded (step decode failed s)
  provider_restored now (some token) s = step decode set_loaded (step decode (settled now token) s)

  unfoldable pub provider_gone : TokenStore → TokenStore
  provider_gone s = step decode cancel s

-- `isAuthenticated`
abbrev is_authenticated : TokenStore → Bool
is_authenticated s = elim s.access_token [ none ↦ false | some token ↦ true ]
