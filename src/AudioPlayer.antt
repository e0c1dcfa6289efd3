-- ===== src/AudioPlayer.antt =====
-- web/src/components/ui/audio-player.tsx: the audio element of a provider, which the player
-- components inside it share. A call that awaits the last play promise is kept as a suspended call
-- until that promise settles.
pub mod Transitions
pub mod Sources
pub mod Controls
pub mod Speeds
use go_grpc_microservices.Prelude.{
  ℕ, suc, String, Bool, true, false, not, ◌&&◌, Option, none, some, List, [], ◌∷◌, ◌++◌, nat_eq,
  ltb, ◌==◌, if◌then◌else◌,
}
use go_grpc_microservices.Media.{MediaElement}

-- `string | number`
pub data ItemId : Type 0 where
  text : String → ItemId
  number : ℕ → ItemId

pub record AudioPlayerItem : Type 0 where
  pub id : ItemId
  pub src : String

-- `===` on ids
abbrev pub id_eq : ItemId → ItemId → Bool
id_eq (text a) (text b) = a == b
id_eq (number a) (number b) = nat_eq a b
id_eq _ _ = false

-- `a?.id === b?.id`
abbrev pub same_id : Option AudioPlayerItem → Option AudioPlayerItem → Bool
same_id none none = true
same_id (some a) (some b) = id_eq a.id b.id
same_id _ _ = false

-- The argument of `play`: left out, or an item or `null`.
pub data Target : Type 0 where
  current : Target
  given : Option AudioPlayerItem → Target

-- A call that awaits a play promise: a `play` with its argument and the `activeItem` of its
-- closure, or a `pause`.
pub data Suspended : Type 0 where
  playing : ℕ → Target → Option AudioPlayerItem → Suspended
  pausing : ℕ → Suspended

abbrev pub awaited : Suspended → ℕ
awaited (playing id target active) = id
awaited (pausing id) = id

module _ (m : MediaElement) where
  pub record Player : Type 0 where
    -- `audioRef.current`, and whether it is set
    pub mounted : Bool
    pub element : m.Element
    pub item_ref : Option AudioPlayerItem
    pub play_promise : Option ℕ
    -- the states of the component
    pub ready_state : ℕ
    pub network_state : ℕ
    pub time : ℕ
    pub duration : Option ℕ
    pub error : Option ℕ
    pub active_item : Option AudioPlayerItem
    pub paused : Bool
    pub playback_rate : ℕ
    -- the world around it: play promises that have not settled, the next one, and the calls that
    -- await one, oldest first
    pub unsettled : List ℕ
    pub next_promise : ℕ
    pub suspended : List Suspended

  -- A player on a fresh element, which has no address.
  abbrev pub fresh : m.Element → Player
  fresh e = record {
    mounted = true;
    element = e;
    item_ref = none;
    play_promise = none;
    ready_state = 0;
    network_state = 0;
    time = 0;
    duration = none;
    error = none;
    active_item = none;
    paused = true;
    playback_rate = 100;
    unsettled = [];
    next_promise = 0;
    suspended = [];
  }

  -- `if (item === null) removeAttribute("src") else src = item.src`
  abbrev pub set_source : Option AudioPlayerItem → m.Element → m.Element
  set_source none e = m.remove_src e
  set_source (some item) e = m.set_src item.src e

  -- The element takes the item's address from the start, at the rate that it had.
  unfoldable pub load_item : ℕ → Option AudioPlayerItem → m.Element → m.Element
  load_item current_rate item e =
      m.set_playback_rate current_rate (m.load (set_source item (m.set_current_time 0 e)))

  -- `setActiveItem`
  unfoldable pub set_active_item : Option AudioPlayerItem → Player → Player
  unfolding load_item
  set_active_item item p =
      if not p.mounted then p else if same_id item p.item_ref then p else record p {
        item_ref = item;
        element = load_item (m.playback_rate p.element) item (m.pause p.element);
      }

  -- `playPromiseRef.current = audioRef.current.play()`
  unfoldable pub start_play : Player → Player
  start_play p = record p {
    element = m.play p.element;
    play_promise = some p.next_promise;
    unsettled = p.next_promise ∷ p.unsettled;
    next_promise = suc p.next_promise;
  }

  -- `play`, behind its `await`; `active` is the `activeItem` of the closure.
  unfoldable pub run_play : Target → Option AudioPlayerItem → Player → Player
  unfolding start_play load_item
  run_play current active p = start_play p
  run_play (given item) active p =
      if same_id item active
      then start_play p
      else start_play (record p {
        item_ref = item;
        element =
            load_item (m.playback_rate p.element) item
              (if m.paused p.element then p.element else m.pause p.element);
      })

  abbrev suspend : Suspended → Player → Player
  suspend c p = record p { suspended = p.suspended ++ c ∷ [] }

  -- `play`
  unfoldable pub play : Target → Player → Player
  play target p = if not p.mounted then p else elim p.play_promise [
    | none ↦ run_play target p.active_item p
    | some id ↦ suspend (playing id target p.active_item) p
  ]

  -- `pause`, behind its `await`
  unfoldable pub run_pause : Player → Player
  run_pause p = record p { element = m.pause p.element; play_promise = none }

  -- `pause`
  unfoldable pub pause : Player → Player
  pause p =
      if not p.mounted
      then p
      else elim p.play_promise [ none ↦ run_pause p | some id ↦ suspend (pausing id) p ]

  -- A suspended call goes on; a rejection of the promise that it awaited is caught.
  unfoldable pub resume : Suspended → Player → Player
  resume (playing id target active) p = run_play target active p
  resume (pausing id) p = run_pause p

  -- `seek`
  unfoldable pub seek : ℕ → Player → Player
  seek t p = if not p.mounted then p else record p { element = m.set_current_time t p.element }

  -- `setPlaybackRate`
  unfoldable pub set_playback_rate : ℕ → Player → Player
  set_playback_rate rate p =
      if not p.mounted
      then p
      else record p { element = m.set_playback_rate rate p.element; playback_rate = rate }

  -- `isItemActive`
  unfoldable pub is_item_active : Option ItemId → Player → Bool
  is_item_active none p = false
  is_item_active (some id) p = elim p.active_item [ none ↦ false | some item ↦ id_eq item.id id ]

  -- The callback of `useAnimationFrame`
  unfoldable pub frame : Player → Player
  frame p = if not p.mounted then p else record p {
    active_item = p.item_ref;
    ready_state = m.ready_state p.element;
    network_state = m.network_state p.element;
    time = m.current_time p.element;
    duration = m.duration p.element;
    paused = m.paused p.element;
    error = m.error p.element;
    playback_rate = m.playback_rate p.element;
  }

  abbrev pub is_playing : Player → Bool
  is_playing p = not p.paused

  -- `isBuffering`: HAVE_FUTURE_DATA is 3, NETWORK_LOADING is 2
  is_buffering : Player → Bool
  is_buffering p = ltb p.ready_state 3 && nat_eq p.network_state 2

  -- `AudioPlayerButton`: whether it shows "Pause", and a click on it.
  unfoldable pub button_playing : Option AudioPlayerItem → Player → Bool
  unfolding is_item_active
  button_playing none p = is_playing p
  button_playing (some item) p = is_item_active (some item.id) p && is_playing p

  unfoldable pub click : Option AudioPlayerItem → Player → Player
  unfolding button_playing
  click none p = if button_playing none p then pause p else play current p
  click (some item) p = if button_playing (some item) p then pause p else play (given (some item)) p

  -- `loading` of `AudioPlayerButton`
  unfoldable pub button_loading : Option AudioPlayerItem → Player → Bool
  unfolding is_item_active is_buffering
  button_loading none p = is_buffering p && is_playing p
  button_loading (some item) p = is_item_active (some item.id) p && is_buffering p && is_playing p

  -- `onKeyDown` of `AudioPlayerProgress`
  unfoldable pub key_down : String → Player → Player
  key_down key p = if key == " " then if not (is_playing p) then play current p else pause p else p

  -- `AudioPlayerProgress`: a pointer goes down, and up again; `wasPlayingRef` is the `Bool`.
  unfoldable pub pointer_down : Player → Bool × Player
  pointer_down p = (is_playing p, pause p)

  unfoldable pub pointer_up : Bool → Player → Player
  pointer_up was_playing p = if was_playing then play current p else p
