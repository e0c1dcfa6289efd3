-- ===== src/Recorder/Tidy.antt =====
-- Nothing that records stays live unnamed (web/src/hooks/use-audio-recorder.ts), as long as a
-- recording is started only when none is under way.
use go_grpc_microservices.Prelude.{
  ℕ, ◌+◌, ◌≡◌, ◌<◌, ◌≤◌, Bool, true, false, none, some, [], ◌∷◌, arith, In,
}
use go_grpc_microservices.AudioCache.Entry.{Blob}
use go_grpc_microservices.Recorder.{
  Slot, empty, IsTidy, Recorder, idle, cleanup, destroy_wave_surfer, start, granted, refused,
  import_failed, imported, tick, stop, stopped, reset, render, take, release, run_effect,
  release-empty,
}

-- One thing that happens to the hook. A start is made only when nothing is being recorded and no
-- other start is under way.
pub data Step (s : Recorder) : Recorder → Type 0 where
  starts : s.is_recording ≡ false → s.asking ≡ 0 → s.importing ≡ 0 → Step s (start s)
  grants : 0 < s.asking → Step s (granted s)
  refuses : (not_allowed : Bool) → 0 < s.asking → Step s (refused not_allowed s)
  imports : (now : ℕ) → 0 < s.importing → Step s (imported now s)
  fails_import : 0 < s.importing → Step s (import_failed s)
  ticks : (id now : ℕ) → In id s.timer.live → Step s (tick id now s)
  stops : (wants : Bool) → Step s (stop wants s)
  has_stopped : (blob : Blob) → Step s (stopped blob s)
  resets : Step s (reset s)
  renders : (container : Bool) → Step s (render container s)

pub data Reach (s : Recorder) : Recorder → Type 0 where
  here : Reach s s
  and_then : {t u : Recorder} → Reach s t → Step t u → Reach s u

-- All refs name what is live of their kind.
pub record AllTidy (s : Recorder) : Type 0 where
  pub recorder : IsTidy s.recorder
  pub stream : IsTidy s.stream
  pub timer : IsTidy s.timer
  pub wave : IsTidy s.wave
  pub mic : IsTidy s.mic

abbrev pub is_held : Slot → Bool
is_held s = elim s.held [ none ↦ false | some id ↦ true ]

pub record Inv (s : Recorder) : Type 0 where
  pub tidy : AllTidy s
  pub one : s.asking + s.importing ≤ 1
  pub not_yet : 0 < s.asking + s.importing → s.is_recording ≡ false
  pub unrecorded : s.is_recording ≡ false → (s.recorder.held ≡ none) × (s.timer.held ≡ none)
  pub quiet : s.is_recording ≡ false → s.importing ≡ 0 → s.stream.held ≡ none
  pub unshown : s.effect_cleanup ≡ false → (s.wave.held ≡ none) × (s.mic.held ≡ none)
  pub dark : s.is_recording ≡ false → (s.wave.held ≡ none) × (s.mic.held ≡ none)
  pub running : s.is_recording ≡ true → (is_held s.recorder ≡ true) × (is_held s.timer ≡ true)
  pub unseen : s.effect_for ≡ false → s.effect_cleanup ≡ false

Step-Inv : {s t : Recorder} → Step s t → Inv s → Inv t
unfolding start granted refused imported import_failed tick stop stopped reset render run_effect
    take release
Step-Inv (starts a b c) v = ground arith
Step-Inv (grants h) v = ground arith
Step-Inv (refuses n h) v = ground arith
Step-Inv (imports now h) v = ground arith
Step-Inv (fails_import h) v = ground arith
Step-Inv (ticks id now h) v = ground arith
Step-Inv (stops wants) v = ground arith
Step-Inv (has_stopped blob) v = ground arith
Step-Inv resets v = ground arith
Step-Inv (renders container) v = ground arith

idle-Inv : Inv idle
idle-Inv = ground arith

pub Reach-Inv : {s : Recorder} → Reach idle s → Inv s
Reach-Inv here = idle-Inv
Reach-Inv (and_then r st) = Step-Inv st (Reach-Inv r)

-- All that a recording uses has been released.
abbrev pub IsSilent : Recorder → Type 0
IsSilent s =
    (s.recorder ≡ empty)
    × (s.stream ≡ empty)
    × (s.timer ≡ empty)
    × (s.wave ≡ empty)
    × (s.mic ≡ empty)

-- If a recording is started only when none is under way, then, whatever the browser answers and
-- whatever is stopped and reset in between, of the streams, recorders, timers and drawings just
-- those are live that the refs of the hook name; and none is while nothing is being recorded and
-- no start is under way.
pub Reach-idle :
    {s : Recorder}
    → Reach idle s
    → AllTidy s × (s.is_recording ≡ false → s.asking ≡ 0 → s.importing ≡ 0 → IsSilent s)
Reach-idle {s} r =
    let v = Reach-Inv r in
    (v.tidy, λ off a i. (ground arith, ground arith, ground arith, ground arith, ground arith))

-- Stopping a recording hands its audio over and releases all that it used: so long as recordings
-- were started only when none was under way, and one is now, the callback of the recorder makes
-- the audio the hook's, calls `onBlob` with it once, and leaves nothing live.
stop_lem :
    {s : Recorder} (blob : Blob)
    → Reach idle s
    → s.is_recording ≡ true
    → s.stopping ≡ []
    → let t = stopped blob (stop true s) in
      (t.audio_blob ≡ some blob)
      × (t.delivered ≡ blob ∷ s.delivered)
      × (t.is_recording ≡ false)
      × IsSilent t
unfolding stop stopped cleanup destroy_wave_surfer
stop_lem {s} blob r on free =
    let v = Reach-Inv r in
    let recorder = release-empty s.recorder v.tidy.recorder in
    let stream = release-empty s.stream v.tidy.stream in
    let timer = release-empty s.timer v.tidy.timer in
    let wave = release-empty s.wave v.tidy.wave in
    let mic = release-empty s.mic v.tidy.mic in ground arith
