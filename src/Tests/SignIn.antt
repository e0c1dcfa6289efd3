-- ===== src/Tests/SignIn.antt =====
-- The theorems on signing in and out (web/src/modules/auth, web/src/lib/auth-context.tsx,
-- web/src/hooks/use-logout.ts) at concrete inputs.
use go_grpc_microservices.Prelude.{
  ◌≡◌, refl, String, ℕ, true, false, Bool, Option, none, some, inl, [], if◌then◌else◌,
}
use go_grpc_microservices.AuthActions.{refresh_cookie}
use go_grpc_microservices.TokenStore.{init, step, settled}
use go_grpc_microservices.SignIn.{
  AuthRequest, login, register, Answer, answered, LoginValues, RegisterValues, Client,
  is_login_valid, is_register_valid, submit_login, submit_register, sign_in, handle_logout,
  provider_shown, provider_restored,
}
use go_grpc_microservices.SignIn.Restoring.{provider_restored_lem}
use go_grpc_microservices.SignIn.Cycle.{
  Submitted, submit-Submitted, logout_after_sign_in, sign_in_overwritten,
}

abbrev decode : Option String → Option (Option ℕ)
decode part = some (some 100)

abbrev hash : String → String
hash s = s

abbrev is_email : String → Bool
is_email s = true

abbrev answer : Answer
answer = record { access_token = "a.b"; refresh_token = "r" }

abbrev service : AuthRequest → Option Answer
service (login e p) = some answer
service (register n e p) = none

abbrev browser : Client
browser = record {
  server = record { inflight = []; calls = []; cookies = λ r. none };
  store = init;
  sent = [];
  route = none;
  refreshed = 0;
  has_current_user = false;
  logged = 0;
}

abbrev known : LoginValues
known = record { email = "a@b.c"; password = "secret" }

abbrev new : RegisterValues
new = record { name = "A"; email = "a@b.c"; password = "secret" }

submit-Submitted_example :
    (if is_login_valid decode hash true is_email service 0 known
      then Submitted decode hash true is_email service 0 1 answered
          (login "a@b.c" "secret")
          browser
          (submit_login decode hash true is_email service 0 1 answered known browser)
      else submit_login decode hash true is_email service 0 1 answered known browser ≡ browser)
    × (if is_register_valid decode hash true is_email service 0 new
        then Submitted decode hash true is_email service 0 1 answered
            (register "A" "a@b.c" "secret")
            browser
            (submit_register decode hash true is_email service 0 1 answered new browser)
        else submit_register decode hash true is_email service 0 1 answered new browser ≡ browser)
submit-Submitted_example =
    submit-Submitted decode hash true is_email service 0 1 answered known new browser

logout_after_sign_in_example :
    let t = sign_in decode hash true is_email service 0 1 answered answer browser in
    let u = handle_logout decode hash true is_email service 0 2 answered t in
    (u.0 ≡ some "r")
    × (u.1.server.cookies 0 ≡ none)
    × (u.1.store.access_token ≡ none)
    × (u.1.store.armed ≡ [])
    × (u.1.has_current_user ≡ false)
logout_after_sign_in_example =
    logout_after_sign_in decode hash true is_email service 0 1 2 answer browser (inl refl) refl

abbrev restoring : Client
restoring = record browser { store = record init { in_flight = true; pending = 1 } }

sign_in_overwritten_example :
    let t = sign_in decode hash true is_email service 0 1 answered answer restoring in
    let u = step decode (settled 2 none) t.store in
    (t.store.access_token ≡ some "a.b")
    × (t.route ≡ some "/dashboard")
    × (t.server.cookies 0 ≡ some (refresh_cookie true "r"))
    × (u.access_token ≡ none)
    × (u.in_flight ≡ false)
sign_in_overwritten_example =
    sign_in_overwritten decode hash true is_email service 0 1 2 answer restoring refl

provider_restored_lem_example :
    let t = provider_restored decode 1 (some (some "a.b")) (provider_shown decode init) in
    (t.is_loading_auth ≡ false) × (t.in_flight ≡ false) × (t.access_token ≡ some "a.b")
provider_restored_lem_example = provider_restored_lem decode 1 (some (some "a.b")) init
