-- ===== src/Media.antt =====
-- A media element as the browser documents it (HTMLAudioElement), an interface that the players
-- take as a parameter; `simple_media` meets it. Times are in milliseconds and rates in hundredths.
use go_grpc_microservices.Prelude.{ℕ, String, ◌≡◌, refl, Bool, true, false, Option, none, some}

pub record MediaElement : Type 1 where
  pub Element : Type 0
  -- its attributes
  pub src : Element → Option String
  pub paused : Element → Bool
  pub current_time : Element → ℕ
  pub playback_rate : Element → ℕ
  pub ready_state : Element → ℕ
  pub network_state : Element → ℕ
  pub duration : Element → Option ℕ
  pub error : Element → Option ℕ
  -- its methods and setters; what the promise of `play` settles with comes later
  pub play : Element → Element
  pub pause : Element → Element
  pub load : Element → Element
  pub set_src : String → Element → Element
  pub remove_src : Element → Element
  pub set_current_time : ℕ → Element → Element
  pub set_playback_rate : ℕ → Element → Element
  -- The address changes only where it is set. Nothing is asked of the rate after `load`, which
  -- resets it to the element's default.
  pub src-play : (e : Element) → src (play e) ≡ src e
  pub src-pause : (e : Element) → src (pause e) ≡ src e
  pub src-load : (e : Element) → src (load e) ≡ src e
  pub src-set_src : (s : String) (e : Element) → src (set_src s e) ≡ some s
  pub src-remove_src : (e : Element) → src (remove_src e) ≡ none
  pub src-set_current_time : (t : ℕ) (e : Element) → src (set_current_time t e) ≡ src e
  pub src-set_playback_rate : (r : ℕ) (e : Element) → src (set_playback_rate r e) ≡ src e
  pub playback_rate-play : (e : Element) → playback_rate (play e) ≡ playback_rate e
  pub playback_rate-pause : (e : Element) → playback_rate (pause e) ≡ playback_rate e
  pub playback_rate-set_current_time :
      (t : ℕ) (e : Element) → playback_rate (set_current_time t e) ≡ playback_rate e
  pub playback_rate-set_playback_rate :
      (r : ℕ) (e : Element) → playback_rate (set_playback_rate r e) ≡ r
  pub paused-pause : (e : Element) → paused (pause e) ≡ true
  pub paused-set_current_time : (t : ℕ) (e : Element) → paused (set_current_time t e) ≡ paused e
  pub current_time-pause : (e : Element) → current_time (pause e) ≡ current_time e

-- An element that has loaded what it is given at once.
pub record SimpleElement : Type 0 where
  pub address : Option String
  pub is_paused : Bool
  pub time : ℕ
  pub rate : ℕ

-- The interface can be met.
abbrev pub simple_media : MediaElement
simple_media = record {
  Element = SimpleElement;
  src = λ e. e.address;
  paused = λ e. e.is_paused;
  current_time = λ e. e.time;
  playback_rate = λ e. e.rate;
  ready_state = λ e. 4;
  network_state = λ e. 1;
  duration = λ e. some 60000;
  error = λ e. none;
  play = λ e. record e { is_paused = false };
  pause = λ e. record e { is_paused = true };
  load = λ e. record e { is_paused = true; time = 0; rate = 100 };
  set_src = λ s e. record e { address = some s };
  remove_src = λ e. record e { address = none };
  set_current_time = λ t e. record e { time = t };
  set_playback_rate = λ r e. record e { rate = r };
  src-play = λ e. refl;
  src-pause = λ e. refl;
  src-load = λ e. refl;
  src-set_src = λ s e. refl;
  src-remove_src = λ e. refl;
  src-set_current_time = λ t e. refl;
  src-set_playback_rate = λ r e. refl;
  playback_rate-play = λ e. refl;
  playback_rate-pause = λ e. refl;
  playback_rate-set_current_time = λ t e. refl;
  playback_rate-set_playback_rate = λ r e. refl;
  paused-pause = λ e. refl;
  paused-set_current_time = λ t e. refl;
  current_time-pause = λ e. refl;
}
