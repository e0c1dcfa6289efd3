-- ===== src/AnimationFrame.antt =====
-- The loop that follows the player's time, `useAnimationFrame` of
-- web/src/components/ui/audio-player.tsx, with the frames that the browser has scheduled. Its
-- handles are not 0, as documented, and it calls a frame's function once unless it is cancelled.
pub mod Deltas
pub mod Scheduled
use go_grpc_microservices.Prelude.{
  ℕ, suc, ◌-◌, Bool, true, false, Option, none, some, List, [], ◌∷◌, if◌then◌else◌,
}
use go_grpc_microservices.Recorder.Refs.{drop_id}
use go_grpc_microservices.AudioPlayback.{has_id}

pub record Frames : Type 0 where
  -- `requestRef`
  pub request : Option ℕ
  -- `previousTimeRef`
  pub previous_time : Option ℕ
  -- the frames that are scheduled
  pub scheduled : List ℕ
  -- what the callback was called with, newest first
  pub deltas : List ℕ
  pub fresh : ℕ

abbrev pub initial : Frames
initial = record { request = none; previous_time = none; scheduled = []; deltas = []; fresh = 1 }

-- `requestRef.current = requestAnimationFrame(animate)`
unfoldable pub request_frame : Frames → Frames
request_frame s = record s {
  request = some s.fresh;
  scheduled = s.fresh ∷ s.scheduled;
  fresh = suc s.fresh;
}

abbrev call_back : ℕ → Option ℕ → List ℕ → List ℕ
call_back time none ds = ds
call_back time (some previous) ds = (time - previous) ∷ ds

-- `animate`, called by the browser at a time
unfoldable pub animate : ℕ → Frames → Frames
unfolding request_frame
animate time s =
    request_frame
      (record s { deltas = call_back time s.previous_time s.deltas; previous_time = some time })

-- The cleanup of the effect
unfoldable pub clean_up : Frames → Frames
clean_up s = record s {
  scheduled = elim s.request [ none ↦ s.scheduled | some id ↦ drop_id id s.scheduled ];
  previous_time = none;
}

pub data Event : Type 0 where
  mounted : Event
  frame : ℕ → ℕ → Event
  unmounted : Event

-- The browser calls a frame that is scheduled.
unfoldable pub step : Frames → Event → Frames
unfolding animate request_frame clean_up
step s mounted = request_frame s
step s (frame id time) =
    if has_id id s.scheduled
    then animate time (record s { scheduled = drop_id id s.scheduled })
    else s
step s unmounted = clean_up s

abbrev pub run : Frames → List Event → Frames
run s [] = s
run s (e ∷ es) = run (step s e) es
