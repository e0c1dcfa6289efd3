-- ===== src/SignIn/Cycle.antt =====
-- What signing in and out does to the cookies and the browser's token together.
use go_grpc_microservices.Prelude.{
  ℕ, suc, ◌≡◌, ◌≢◌, ◌⊎◌, inl, inr, refl, String, Bool, true, false, Option, none, some, [], ◌∷◌,
  arith, subst, sym, ◌∙◌, if◌then◌else◌, Option-cases,
}
use go_grpc_microservices.Text.{is_empty}
use go_grpc_microservices.AuthActions.{refresh_cookie, cookie_token, set_auth_cookies, logout}
use go_grpc_microservices.TokenStore.{set, settled, step}
use go_grpc_microservices.TokenStore.Invariant.{IsNamed, set-IsNamed, set-in_flight}
use go_grpc_microservices.SignIn.Restoring.{access_token-set, armed-set-none, settled_lem}
use go_grpc_microservices.SignIn.{
  AuthRequest, login, register, Answer, ActionEnd, answered, lost, unreached, LoginValues,
  RegisterValues, Client, is_login_valid, is_register_valid, sign_in, attempt, submit_login,
  submit_register, handle_logout,
}

module _ (decode : Option String → Option (Option ℕ)) (hash : String → String) (production : Bool)
    (is_email : String → Bool) (service : AuthRequest → Option Answer) (self : ℕ) where
  -- A session was established with the answer to a request.
  abbrev SignedIn : ℕ → AuthRequest → Client → Client → Type 0
  SignedIn now q s t =
      (a : Answer) × (service q ≡ some a)
      × (t.server.cookies self ≡ some (refresh_cookie production a.refresh_token))
      × (t.store ≡ set decode now (some a.access_token) s.store)
      × (t.store.access_token ≡ some a.access_token)
      × (t.route ≡ some "/dashboard")
      × (t.sent ≡ q ∷ s.sent)
      × (t.logged ≡ s.logged)

  -- Nothing of the page has changed but that the request was sent and its failure logged.
  abbrev NotSignedIn : AuthRequest → Client → Client → Type 0
  NotSignedIn q s t =
      (t.store ≡ s.store) × (t.route ≡ s.route) × (t.sent ≡ q ∷ s.sent) × (t.logged ≡ suc s.logged)

  abbrev pub Submitted : ℕ → ActionEnd → AuthRequest → Client → Client → Type 0
  Submitted now end q s t =
      ((end ≡ answered) × SignedIn now q s t)
      ⊎ (((service q ≡ none) ⊎ (end ≢ answered)) × NotSignedIn q s t)

  sign_in-Submitted :
      (now : ℕ) (end : ActionEnd) (q : AuthRequest) (a : Answer) (s : Client)
      → service q ≡ some a
      → Submitted now end q s (
          sign_in decode hash production is_email service self now end a
            (record s { sent = q ∷ s.sent }))
  unfolding sign_in set_auth_cookies
  sign_in-Submitted now answered q a s e = inl (
    refl,
    (
      a,
      e,
      ground arith,
      refl,
      access_token-set decode now (some a.access_token) s.store,
      refl,
      refl,
      refl,
    ),
  )
  sign_in-Submitted now lost q a s e = inr (inr (λ h. cc), (refl, refl, refl, refl))
  sign_in-Submitted now unreached q a s e = inr (inr (λ h. cc), (refl, refl, refl, refl))

  attempt_answered :
      (now : ℕ) (end : ActionEnd) (q : AuthRequest) (a : Answer) (s : Client)
      → service q ≡ some a
      → attempt decode hash production is_email service self now end q s
        ≡ sign_in decode hash production is_email service self now end a
            (record s { sent = q ∷ s.sent })
  unfolding attempt
  attempt_answered now end q a s e = ground arith

  attempt-Submitted :
      (now : ℕ) (end : ActionEnd) (q : AuthRequest) (s : Client)
      → Submitted now end q s (attempt decode hash production is_email service self now end q s)
  unfolding attempt
  attempt-Submitted now end q s = elim (Option-cases (service q)) [
    | inl e ↦ inr (inl e, ground arith)
    | inr (a, e) ↦
        subst (Submitted now end q s) (sym (attempt_answered now end q a s e))
          (sign_in-Submitted now end q a s e)
  ]

  when_valid :
      (now : ℕ) (end : ActionEnd) (q : AuthRequest) (s t : Client) (valid : Bool)
      → Submitted now end q s t
      → if valid
        then Submitted now end q s (if valid then t else s)
        else ◌≡◌ {A = Client} (if valid then t else s) s
  when_valid now end q s t true h = h
  when_valid now end q s t false h = refl

  -- A form that is not valid changes nothing. A valid one sends the request made of its values,
  -- and then, exactly if the service answers it and the server action that keeps the cookie is
  -- done and answered, the session is established: the refresh token is in the browser's cookies,
  -- the access token is the browser's token, and the dashboard is gone to. Else the browser's
  -- token and the page stay, and the failure is logged to the console once.
  pub submit-Submitted :
      (now : ℕ) (end : ActionEnd) (v : LoginValues) (w : RegisterValues) (s : Client)
      → (if is_login_valid decode hash production is_email service self v
          then Submitted now end
              (login v.email v.password)
              s
              (submit_login decode hash production is_email service self now end v s)
          else submit_login decode hash production is_email service self now end v s ≡ s)
        × (if is_register_valid decode hash production is_email service self w
            then Submitted now end
                (register w.name w.email w.password)
                s
                (submit_register decode hash production is_email service self now end w s)
            else submit_register decode hash production is_email service self now end w s ≡ s)
  unfolding submit_login submit_register
  submit-Submitted now end v w s = (
    when_valid now end (login v.email v.password) s _
        (is_login_valid decode hash production is_email service self v)
        (attempt-Submitted now end (login v.email v.password) s),
    when_valid now end (register w.name w.email w.password) s _
        (is_register_valid decode hash production is_email service self w)
        (attempt-Submitted now end (register w.name w.email w.password) s),
  )

  -- Logging out undoes logging in: over a store whose armed timer is the one that it names, if
  -- both are answered and the refresh token is not empty, then after a log-in and a log-out the
  -- service is asked to revoke exactly that refresh token, the browser has neither a cookie nor a
  -- token, no timer is armed, and the query "currentUser" has no data. The other queries are not
  -- considered here.
  pub logout_after_sign_in :
      (now later : ℕ) (a : Answer) (s : Client)
      → IsNamed s.store
      → is_empty a.refresh_token ≡ false
      → let t = sign_in decode hash production is_email service self now answered a s in
        let u = handle_logout decode hash production is_email service self later answered t in
        (u.0 ≡ some a.refresh_token)
        × (u.1.server.cookies self ≡ none)
        × (u.1.store.access_token ≡ none)
        × (u.1.store.armed ≡ [])
        × (u.1.has_current_user ≡ false)
  unfolding sign_in handle_logout set_auth_cookies logout cookie_token refresh_cookie
  logout_after_sign_in now later a s h e =
      let signed = set decode now (some a.access_token) s.store in
      let token = access_token-set decode now (some a.access_token) s.store in
      (
        ground arith,
        ground arith,
        access_token-set decode later none signed,
        armed-set-none decode later a.access_token signed
            (set-IsNamed decode now (some a.access_token) s.store h) token,
        refl,
      )

  -- A refresh that was under way when the user logged in undoes the log-in on the page: if it ends
  -- afterwards and finds no session, the browser's token is gone, though the refresh token of the
  -- log-in is in the cookies and the dashboard was gone to.
  pub sign_in_overwritten :
      (now later : ℕ) (a : Answer) (s : Client)
      → s.store.in_flight ≡ true
      → let t = sign_in decode hash production is_email service self now answered a s in
        let u = step decode (settled later none) t.store in
        (t.store.access_token ≡ some a.access_token)
        × (t.route ≡ some "/dashboard")
        × (t.server.cookies self ≡ some (refresh_cookie production a.refresh_token))
        × (u.access_token ≡ none)
        × (u.in_flight ≡ false)
  unfolding sign_in set_auth_cookies
  sign_in_overwritten now later a s busy =
      let signed = set decode now (some a.access_token) s.store in
      let kept = (set-in_flight decode now (some a.access_token) s.store).1 in
      let ended = settled_lem decode later none signed (kept ∙ busy) in
      (
        access_token-set decode now (some a.access_token) s.store,
        refl,
        ground arith,
        ended.0,
        ended.1,
      )
