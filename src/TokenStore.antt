-- ===== src/TokenStore.antt =====
-- web/src/lib/token-store.ts: the access token in the browser, the timer that renews it, and the
-- one refresh that may be under way.
pub mod Timer
pub mod Invariant
use Prim.Native.Char.{code}
use Prim.Native.String
use go_grpc_microservices.Prelude.{
  ℕ, suc, ◌+◌, ◌-◌, ◌*◌, String, Bool, true, false, not, Option, none, some, List, [], ◌∷◌, ◌++◌,
  nat_eq, ◌==◌, if◌then◌else◌,
}
use go_grpc_microservices.Text.{is_empty}

-- An armed timeout: its id, and when it is due.
pub record Timeout : Type 0 where
  pub id : ℕ
  pub due : ℕ

pub record TokenStore : Type 0 where
  -- the variables of the module
  pub access_token : Option String
  pub is_loading_auth : Bool
  pub refresh_timer : Option ℕ
  pub in_flight : Bool
  pub listeners : List ℕ
  -- the world around it: timeouts that have not fired, the next id, the calls of
  -- `refreshAccessTokenAction` that have not settled, and the listeners called so far
  pub armed : List Timeout
  pub next_id : ℕ
  pub pending : ℕ
  pub notified : List ℕ

abbrev pub init : TokenStore
init = record {
  access_token = none;
  is_loading_auth = true;
  refresh_timer = none;
  in_flight = false;
  listeners = [];
  armed = [];
  next_id = 0;
  pending = 0;
  notified = [];
}

-- `accessToken === token`
abbrev pub same_token : Option String → Option String → Bool
same_token none none = true
same_token (some a) (some b) = a == b
same_token _ _ = false

abbrev to_dot : String → String
to_dot String.[] = ""
to_dot (String.◌∷◌ c s) =
    let rest = to_dot s in if nat_eq (code c) b'.' then "" else String.◌∷◌ c rest

-- `token.split(".")[1]`
unfoldable pub second_part : String → Option String
second_part String.[] = none
second_part (String.◌∷◌ c s) = if nat_eq (code c) b'.' then some (to_dot s) else second_part s

unfoldable pub emit : TokenStore → TokenStore
emit s = record s { notified = s.notified ++ s.listeners }

abbrev pub clear_timeout : ℕ → List Timeout → List Timeout
clear_timeout id [] = []
clear_timeout id (t ∷ ts) =
    let rest = clear_timeout id ts in if nat_eq t.id id then rest else t ∷ rest

-- `cancelRefreshTimer`
unfoldable pub cancel_refresh_timer : TokenStore → TokenStore
cancel_refresh_timer s = elim s.refresh_timer [
  | none ↦ s
  | some id ↦ record s { refresh_timer = none; armed = clear_timeout id s.armed }
]

-- `setTimeout`, and the variable that names the timer
unfoldable pub arm : ℕ → TokenStore → TokenStore
arm due s = record s {
  refresh_timer = some s.next_id;
  armed = record { id = s.next_id; due = due } ∷ s.armed;
  next_id = suc s.next_id;
}

-- 30 seconds before the token expires, and at once if that is past; `-` on ℕ stops at 0.
unfoldable pub due_time : ℕ → ℕ → ℕ
due_time now exp = now + (exp * 1000 - now - 30000)

-- What happens to the store. `settled` and `failed` are the end of the call under way.
pub data Event : Type 0 where
  set_token : ℕ → Option String → Event
  refresh : Event
  settled : ℕ → Option String → Event
  failed : Event
  timer_fires : Event
  cancel : Event
  set_loaded : Event
  subscribe : ℕ → Event
  unsubscribe : ℕ → Event

-- `refreshAccessTokenSingleton`, up to its first `await`
unfoldable pub refresh_access_token_singleton : TokenStore → TokenStore
unfolding cancel_refresh_timer
refresh_access_token_singleton s =
    if s.in_flight
    then s
    else let t = cancel_refresh_timer s in record t { in_flight = true; pending = suc t.pending }

abbrev contains : ℕ → List ℕ → Bool
contains id [] = false
contains id (x ∷ xs) = if nat_eq x id then true else contains id xs

abbrev remove : ℕ → List ℕ → List ℕ
remove id [] = []
remove id (x ∷ xs) = let rest = remove id xs in if nat_eq x id then rest else x ∷ rest

-- The first armed timeout fires; what it was keeps its name in `refreshTimer`.
unfoldable pub fire : TokenStore → TokenStore
unfolding refresh_access_token_singleton
fire s = elim s.armed [ [] ↦ s | t ∷ ts ↦ refresh_access_token_singleton (record s { armed = ts }) ]

-- `decode` stands for `JSON.parse(atob(part)).exp`; the outer `none` is an exception.
module _ (decode : Option String → Option (Option ℕ)) where
  -- `parseJwtExp`
  unfoldable pub parse_jwt_exp : String → Option ℕ
  parse_jwt_exp token = elim (decode (second_part token)) [ none ↦ none | some exp ↦ exp ]

  -- `if (token) { const exp = …; if (exp) … }`
  unfoldable pub schedule : ℕ → Option String → TokenStore → TokenStore
  unfolding arm
  schedule now none s = s
  schedule now (some token) s = if is_empty token then s else elim (parse_jwt_exp token) [
    | none ↦ s
    | some exp ↦ if nat_eq exp 0 then s else arm (due_time now exp) s
  ]

  -- `tokenStore.set`
  unfoldable pub set : ℕ → Option String → TokenStore → TokenStore
  unfolding emit cancel_refresh_timer schedule
  set now token s =
      if same_token s.access_token token
      then s
      else emit (schedule now token (cancel_refresh_timer (record s { access_token = token })))

  -- … and from there: `tokenStore.set(token)`, then `finally`
  unfoldable pub settle : ℕ → Option String → TokenStore → TokenStore
  unfolding set
  settle now token s =
      let t = set now token (record s { pending = s.pending - 1 }) in record t { in_flight = false }

  unfoldable pub step : Event → TokenStore → TokenStore
  unfolding set settle fire refresh_access_token_singleton emit
  step (set_token now token) s = set now token s
  step refresh s = refresh_access_token_singleton s
  step (settled now token) s = if s.in_flight then settle now token s else s
  step failed s = if s.in_flight then record s { pending = s.pending - 1; in_flight = false } else s
  step timer_fires s = fire s
  step cancel s = cancel_refresh_timer s
  step set_loaded s = if s.is_loading_auth then emit (record s { is_loading_auth = false }) else s
  step (subscribe id) s = record s {
    listeners = if contains id s.listeners then s.listeners else s.listeners ++ id ∷ [];
  }
  step (unsubscribe id) s = record s { listeners = remove id s.listeners }

  unfoldable pub run : List Event → TokenStore → TokenStore
  run [] s = s
  run (e ∷ es) s = run es (step e s)
