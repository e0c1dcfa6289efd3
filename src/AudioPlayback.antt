-- ===== src/AudioPlayback.antt =====
-- The hook that plays one recording or file, web/src/hooks/use-audio-playback.ts, with the audio
-- elements that it has made. What happens is an `Event`, and `step` handles one. The browser is
-- documented to reject the calls of `play()` under way when an element is paused or ends.
pub mod Sole
pub mod Switching
use go_grpc_microservices.Prelude.{
  ℕ, suc, String, Bool, true, false, Option, none, some, List, [], ◌∷◌, nat_eq, if◌then◌else◌,
}
use go_grpc_microservices.Text.{is_empty}
use go_grpc_microservices.Recorder.Refs.{drop_id}

-- `src`, a `string` or a `File`, when it is not null
pub data Source : Type 0 where
  address : String → Source
  file : ℕ → Source

-- `!src`
abbrev pub is_absent : Option Source → Bool
is_absent none = true
is_absent (some (address a)) = is_empty a
is_absent (some (file f)) = false

pub record Playback : Type 0 where
  -- `audioRef`
  pub element : Option ℕ
  pub is_playing : Bool
  pub is_loading : Bool
  -- the elements that are told to play, and the calls of `play()` that have not settled
  pub sounding : List ℕ
  pub waiting : List ℕ
  -- the object URLs that are live, each named by the element it was made for
  pub urls : List ℕ
  pub fresh : ℕ

abbrev pub initial : Playback
initial = record {
  element = none;
  is_playing = false;
  is_loading = false;
  sounding = [];
  waiting = [];
  urls = [];
  fresh = 0;
}

-- `src instanceof File ? URL.createObjectURL(src) : src`
abbrev pub add_url : Option Source → ℕ → List ℕ → List ℕ
add_url none id us = us
add_url (some (address a)) id us = us
add_url (some (file f)) id us = id ∷ us

-- `pause()`
unfoldable pub pause : ℕ → Playback → Playback
pause id s = record s { sounding = drop_id id s.sounding; waiting = drop_id id s.waiting }

-- `play()`
unfoldable pub play : ℕ → Playback → Playback
play id s = record s { sounding = id ∷ drop_id id s.sounding; waiting = id ∷ s.waiting }

-- `if (!audioRef.current) …`: the element, made if there is none
unfoldable pub make : Option Source → Playback → ℕ × Playback
make src s = elim s.element [
  | some id ↦ (id, s)
  | none ↦ (
    s.fresh,
    record s { element = some s.fresh; urls = add_url src s.fresh s.urls; fresh = suc s.fresh },
  )
]

-- `togglePlay`
unfoldable pub toggle_play : Option Source → Playback → Playback
unfolding make pause play
toggle_play src s =
    if is_absent src
    then s
    else if s.is_playing
    then record (pause (make src s).0 (make src s).1) { is_playing = false }
    else record (play (make src s).0 (make src s).1) { is_loading = true }

-- The cleanup of the effect: `src` is another, or the component goes.
unfoldable pub change : Playback → Playback
unfolding pause
change s = elim s.element [ none ↦ s | some id ↦ record (pause id s) { element = none } ]

pub data Event : Type 0 where
  toggled : Option Source → Event
  changed : Event
  play_resolved : ℕ → Event
  play_rejected : ℕ → Event
  ended : ℕ → Event
  can_play_through : Event

abbrev pub has_id : ℕ → List ℕ → Bool
has_id id [] = false
has_id id (x ∷ xs) = let rest = has_id id xs in if nat_eq x id then true else rest

-- A call of `play()` settles only while it is under way, and only what sounds can end.
unfoldable pub step : Playback → Event → Playback
unfolding toggle_play change pause
step s (toggled src) = toggle_play src s
step s changed = change s
step s (play_resolved id) =
    if has_id id s.waiting
    then record s { waiting = drop_id id s.waiting; is_playing = true; is_loading = false }
    else s
step s (play_rejected id) = if has_id id s.waiting then pause id s else s
step s (ended id) = if has_id id s.sounding then record (pause id s) { is_playing = false } else s
step s can_play_through = record s { is_loading = false }

abbrev pub run : Playback → List Event → Playback
run s [] = s
run s (e ∷ es) = run (step s e) es
