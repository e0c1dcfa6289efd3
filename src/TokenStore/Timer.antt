-- ===== src/TokenStore/Timer.antt =====
-- What one call does to the token, its timer and the listeners.
use Prim.Native.Char.{Char, code}
use go_grpc_microservices.Prelude.{
  ℕ, ◌+◌, ◌*◌, ◌≤◌, ◌≡◌, ◌⊎◌, refl, String, true, false, Option, none, some, List, [], ◌∷◌, ◌++◌,
  nat_eq, eq_refl, ◌≢◌, inl, inr, ap, Bool-cases, Option-cases, if◌then◌else◌, arith,
}
use go_grpc_microservices.Text.{is_empty, append}
use go_grpc_microservices.TokenStore.{
  Timeout, TokenStore, same_token, to_dot, second_part, cancel_refresh_timer, due_time,
  parse_jwt_exp, schedule, set, refresh_access_token_singleton, settle, step, settled, failed,
}
use go_grpc_microservices.TokenStore.Invariant.{IsNamed, cancel-armed}

-- A renewal is due 30 seconds before the token expires, or at once where that is past.
pub due_time_bounds :
    (now exp : ℕ)
    → (now ≤ due_time now exp)
      × ((due_time now exp + 30000 ≡ exp * 1000)
          ⊎ ((due_time now exp ≡ now) × (exp * 1000 ≤ now + 30000)))
unfolding due_time
due_time_bounds now exp = omega arith

-- The text is a code point that is a dot, and what comes behind it.
abbrev IsDot : Char → Type 0
IsDot c = nat_eq (code c) b'.' ≡ true

abbrev IsDotless : String → Type 0
IsDotless String.[] = Unit
IsDotless (String.◌∷◌ c s) = (nat_eq (code c) b'.' ≡ false) × IsDotless s

-- It is empty or begins with a dot.
abbrev IsAtDot : String → Type 0
IsAtDot String.[] = Unit
IsAtDot (String.◌∷◌ c s) = IsDot c

-- The part of a token between its first dot and its second, or the end; none if it has no dot.
abbrev pub IsSecondPart : String → Option String → Type 0
IsSecondPart token none = IsDotless token
IsSecondPart token (some payload) =
    (header : String) × (dot : Char) × (rest : String) × IsDotless header
    × IsDot dot
    × IsDotless payload
    × IsAtDot rest
    × (token ≡ append header (String.◌∷◌ dot (append payload rest)))

to_dot_lem :
    (s : String)
    → IsDotless (to_dot s) × ((rest : String) × IsAtDot rest × (s ≡ append (to_dot s) rest))
to_dot_lem String.[] = (tt, ("", tt, refl))
to_dot_lem (String.◌∷◌ c s) = elim (Bool-cases (nat_eq (code c) b'.')) [
  | inl e ↦ rw e (tt, (String.◌∷◌ c s, e, refl))
  | inr e ↦
      let (dotless, (rest, at, same)) = to_dot_lem s in
      rw e ((e, dotless), (rest, at, ap (λ t. String.◌∷◌ c t) same))
]

prepend :
    (c : Char) (s : String) (p : Option String)
    → nat_eq (code c) b'.' ≡ false
    → IsSecondPart s p
    → IsSecondPart (String.◌∷◌ c s) p
prepend c s none e h = (e, h)
prepend c s (some payload) e (header, dot, rest, h, d, p, at, same) =
    (String.◌∷◌ c header, dot, rest, (e, h), d, p, at, ap (λ t. String.◌∷◌ c t) same)

second_part-IsSecondPart : (s : String) → IsSecondPart s (second_part s)
unfolding second_part
second_part-IsSecondPart String.[] = tt
second_part-IsSecondPart (String.◌∷◌ c s) = elim (Bool-cases (nat_eq (code c) b'.')) [
  | inl e ↦
      let (dotless, (rest, at, same)) = to_dot_lem s in
      rw e ("", c, rest, tt, e, dotless, at, ap (λ t. String.◌∷◌ c t) same)
  | inr e ↦ rw e (prepend c s (second_part s) e (second_part-IsSecondPart s))
]

module _ (decode : Option String → Option (Option ℕ)) where
  -- The expiry that the second part of a token tells, in seconds.
  abbrev pub IsExpiry : String → Option (Option ℕ) → Type 0
  IsExpiry token exp = (part : Option String) × IsSecondPart token part × (decode part ≡ exp)

  -- There is no token, or an empty one, or one whose second part cannot be read, tells no expiry or
  -- tells an expiry of 0.
  pub data HasNoExpiry : Option String → Type 0 where
    no_token : HasNoExpiry none
    empty : HasNoExpiry (some "")
    unreadable : {token : String} → IsExpiry token none → HasNoExpiry (some token)
    untold : {token : String} → IsExpiry token (some none) → HasNoExpiry (some token)
    at_zero : {token : String} → IsExpiry token (some (some 0)) → HasNoExpiry (some token)

  -- Due 30 seconds before the expiry, or at once where that is past.
  abbrev IsDue : ℕ → ℕ → ℕ → Type 0
  IsDue now exp due =
      (now ≤ due) × ((due + 30000 ≡ exp * 1000) ⊎ ((due ≡ now) × (exp * 1000 ≤ now + 30000)))

  abbrev IsTimed : ℕ → ℕ → Option String → List Timeout → Type 0
  IsTimed now id token armed =
      (text : String) × (exp : ℕ) × (due : ℕ) × (token ≡ some text)
      × (is_empty text ≡ false)
      × IsExpiry text (some (some exp))
      × (exp ≢ 0)
      × IsDue now exp due
      × (armed ≡ record { id = id; due = due } ∷ [])

  -- The timers that are armed for a token.
  abbrev pub IsArmed : ℕ → ℕ → Option String → List Timeout → Type 0
  IsArmed now id token armed = IsTimed now id token armed ⊎ (HasNoExpiry token × (armed ≡ []))

  -- The timers that a token calls for.
  abbrev timers_of : ℕ → ℕ → Option String → List Timeout
  timers_of now id none = []
  timers_of now id (some token) = if is_empty token then [] else elim (parse_jwt_exp decode token) [
    | none ↦ []
    | some exp ↦ if nat_eq exp 0 then [] else record { id = id; due = due_time now exp } ∷ []
  ]

  schedule_lem :
      (now : ℕ) (token : Option String) (s : TokenStore)
      → s.armed ≡ []
      → ((schedule decode now token s).armed ≡ timers_of now s.next_id token)
        × ((schedule decode now token s).access_token ≡ s.access_token)
        × ((schedule decode now token s).notified ≡ s.notified)
        × ((schedule decode now token s).listeners ≡ s.listeners)
  unfolding schedule
  schedule_lem now none s h = ground arith
  schedule_lem now (some token) s h = ground arith

  cancel_lem :
      (s : TokenStore)
      → ((cancel_refresh_timer s).access_token ≡ s.access_token)
        × ((cancel_refresh_timer s).notified ≡ s.notified)
        × ((cancel_refresh_timer s).listeners ≡ s.listeners)
        × ((cancel_refresh_timer s).next_id ≡ s.next_id)
        × ((cancel_refresh_timer s).in_flight ≡ s.in_flight)
  unfolding cancel_refresh_timer
  cancel_lem s = ground arith

  timers_of-IsArmed :
      (now id : ℕ) (token : Option String) → IsArmed now id token (timers_of now id token)
  unfolding parse_jwt_exp
  timers_of-IsArmed now id none = inr (no_token, refl)
  timers_of-IsArmed now id (some String.[]) = inr (empty, refl)
  timers_of-IsArmed now id (some (String.◌∷◌ c s)) =
      let token = String.◌∷◌ c s in
      let part = second_part token in
      let is_part = second_part-IsSecondPart token in
      elim (Option-cases (decode part)) [
        | inl e ↦ rw e (inr (unreadable (part, is_part, e), refl))
        | inr (none, e) ↦ rw e (inr (untold (part, is_part, e), refl))
        | inr (some ℕ.zero, e) ↦ rw e (inr (at_zero (part, is_part, e), refl))
        | inr (some (ℕ.suc n), e) ↦
            let exp = ℕ.suc n in
            rw e (
              inl (
                token,
                exp,
                due_time now exp,
                refl,
                refl,
                (part, is_part, e),
                λ q. cc,
                due_time_bounds now exp,
                ground arith,
              ))
      ]

  pub set-armed :
      (now : ℕ) (token : Option String) (s : TokenStore)
      → IsNamed s
      → same_token s.access_token token ≡ false
      → ((set decode now token s).access_token ≡ token)
        × ((set decode now token s).notified ≡ s.notified ++ s.listeners)
        × ((set decode now token s).armed ≡ timers_of now s.next_id token)
  unfolding set
  set-armed now token s h e =
      let with_token : TokenStore = record s { access_token = token } in
      let cancelled = cancel-armed s with_token refl refl h in
      let same = cancel_lem with_token in
      let done = schedule_lem now token (cancel_refresh_timer with_token) cancelled in
      rw e (ground arith, ground arith, ground arith)

  -- Setting another token than the one that is there stores it, calls every listener once, and
  -- leaves exactly the timer of the new token armed: if the token is not empty and its second part,
  -- between the first dot and the next, tells an expiry that is not 0, one that is due 30 seconds
  -- before that expiry, or at once where that is past; and else none.
  pub set_lem :
      (now : ℕ) (token : Option String) (s : TokenStore)
      → IsNamed s
      → same_token s.access_token token ≡ false
      → ((set decode now token s).access_token ≡ token)
        × ((set decode now token s).notified ≡ s.notified ++ s.listeners)
        × IsArmed now s.next_id token (set decode now token s).armed
  set_lem now token s h e =
      let (stored, notified, armed) = set-armed now token s h e in
      (stored, notified, rw armed (timers_of-IsArmed now s.next_id token))

  settle_same :
      (now : ℕ) (token : Option String) (s : TokenStore)
      → same_token s.access_token token ≡ true
      → (settle decode now token s).armed ≡ s.armed
  unfolding settle
  settle_same now token s e = rw e

  same_token_refl : (token : Option String) → same_token token token ≡ true
  same_token_refl none = refl
  same_token_refl (some t) = eq_refl t

  -- A refresh cancels the timer before it asks for a token. If it fails, or brings the token that
  -- is already there, no timer is armed again, whatever the expiry of that token; the token stays.
  pub refresh_loses_timer :
      (now : ℕ) (s : TokenStore)
      → IsNamed s
      → s.in_flight ≡ false
      → let started = refresh_access_token_singleton s in
        ((step decode (settled now s.access_token) started).armed ≡ [])
        × ((step decode failed started).armed ≡ [])
        × ((step decode failed started).access_token ≡ s.access_token)
  unfolding step refresh_access_token_singleton
  refresh_loses_timer now s h f =
      let cancelled = cancel-armed s s refl refl h in
      let same = cancel_lem s in
      let kept =
        settle_same now s.access_token (refresh_access_token_singleton s)
          (ground (arith, same_token_refl s.access_token)) in
      (ground arith, ground arith, ground arith)
