-- ===== src/TextToSpeech/Wave.antt =====
-- The player that draws a wave, web/src/modules/text-to-speech/hooks/use-wavesurfer.ts. The library
-- wavesurfer.js is not modelled: what it is told is a list, and what it reports and answers are
-- inputs. It is documented to report nothing once it is destroyed. Times are in any fixed unit.
pub mod Sole
pub mod Seeking
use go_grpc_microservices.Prelude.{
  ℕ, suc, ◌+◌, ◌-◌, String, Bool, true, false, not, ◌||◌, Option, none, some, List, [], ◌∷◌, nat_eq,
  leb, if◌then◌else◌,
}
use go_grpc_microservices.Text.{absent}
use go_grpc_microservices.Recorder.Refs.{drop_id}
use go_grpc_microservices.AudioPlayback.{has_id}
use go_grpc_microservices.Voices.Mutations.{text_or}

-- What an instance is told; a seek is told its time and the duration that it is divided by.
pub data Command : Type 0 where
  load : String → Command
  play : Command
  play_pause : Command
  seek_to : ℕ → ℕ → Command

pub record Wave : Type 0 where
  -- `wavesurferRef`
  pub held : Option ℕ
  -- the instance that the cleanup of the effect will destroy: its `destroyed` is false
  pub mounted : Option ℕ
  -- the instances that are not destroyed
  pub live : List ℕ
  pub is_playing : Bool
  pub is_ready : Bool
  pub current_time : ℕ
  pub duration : ℕ
  -- what the instances were told, newest first, and how often `onReady` and `onError` were called
  pub told : List (ℕ × Command)
  pub readied : ℕ
  pub errors : ℕ
  pub fresh : ℕ

abbrev pub initial : Wave
initial = record {
  held = none;
  mounted = none;
  live = [];
  is_playing = false;
  is_ready = false;
  current_time = 0;
  duration = 0;
  told = [];
  readied = 0;
  errors = 0;
  fresh = 0;
}

abbrev destroy : ℕ → Wave → Wave
destroy id s = record s { live = drop_id id s.live }

abbrev tell : ℕ → Command → Wave → Wave
tell id c s = record s { told = (id, c) ∷ s.told }

-- The cleanup of the effect
unfoldable pub leave : Wave → Wave
leave s = elim s.mounted [ none ↦ s | some id ↦ record (destroy id s) { mounted = none } ]

-- `if (wavesurferRef.current) { …destroy(); wavesurferRef.current = null }`
unfoldable pub destroy_held : Wave → Wave
destroy_held s = elim s.held [ none ↦ s | some id ↦ record (destroy id s) { held = none } ]

-- The effect, for whether the container is on the page and the address
unfoldable pub mount : Bool → Option String → Wave → Wave
unfolding destroy_held
mount container url s = if not container || absent url then s else record (destroy_held s) {
  held = some s.fresh;
  mounted = some s.fresh;
  live = s.fresh ∷ (destroy_held s).live;
  told = (s.fresh, load (text_or url "")) ∷ s.told;
  fresh = suc s.fresh;
}

-- `togglePlayPause`
unfoldable pub toggle_play_pause : Wave → Wave
toggle_play_pause s = elim s.held [ none ↦ s | some id ↦ tell id play_pause s ]

-- `seekForward`, where the instance answers its time and its duration
unfoldable pub seek_forward : ℕ → ℕ → ℕ → Wave → Wave
seek_forward seconds time length s = elim s.held [
  | none ↦ s
  | some id ↦
      tell id (seek_to (if leb (time + seconds) length then time + seconds else length) length) s
]

-- `seekBackward`
unfoldable pub seek_backward : ℕ → ℕ → ℕ → Wave → Wave
seek_backward seconds time length s = elim s.held [
  | none ↦ s
  | some id ↦ tell id (seek_to (time - seconds) length) s
]

-- What happens: the effect runs again, its cleanup first, or the component goes; the buttons; and
-- what an instance reports, `pause` and `finish` alike.
pub data Event : Type 0 where
  changed : Bool → Option String → Event
  gone : Event
  toggled : Event
  sought_forward : ℕ → ℕ → ℕ → Event
  sought_backward : ℕ → ℕ → ℕ → Event
  ready : ℕ → ℕ → Bool → Event
  played : ℕ → Event
  paused : ℕ → Event
  time_updated : ℕ → ℕ → Event
  failed : ℕ → Event

-- The handler of `ready`, for the duration and `autoplay`
unfoldable pub on_ready : ℕ → ℕ → Bool → Wave → Wave
on_ready id length autoplay s = record (if autoplay then tell id play s else s) {
  is_ready = true;
  duration = length;
  readied = suc s.readied;
}

-- The handlers of errors: `if (destroyed) return`
unfoldable pub on_error : ℕ → Wave → Wave
on_error id s = elim s.mounted [
  | none ↦ s
  | some m ↦ if nat_eq m id then record s { errors = suc s.errors } else s
]

abbrev while_live : ℕ → Wave → Wave → Wave
while_live id s t = if has_id id s.live then t else s

unfoldable pub step : Wave → Event → Wave
unfolding mount leave toggle_play_pause seek_forward seek_backward on_ready on_error
step s (changed container url) = mount container url (leave s)
step s gone = leave s
step s toggled = toggle_play_pause s
step s (sought_forward seconds time length) = seek_forward seconds time length s
step s (sought_backward seconds time length) = seek_backward seconds time length s
step s (ready id length autoplay) = while_live id s (on_ready id length autoplay s)
step s (played id) = while_live id s (record s { is_playing = true })
step s (paused id) = while_live id s (record s { is_playing = false })
step s (time_updated id time) = while_live id s (record s { current_time = time })
step s (failed id) = on_error id s

abbrev pub run : Wave → List Event → Wave
run s [] = s
run s (e ∷ es) = run (step s e) es
