-- ===== src/Tests/Recording.antt =====
-- The theorems on the recorder (web/src/hooks/use-audio-recorder.ts) at concrete inputs.
use go_grpc_microservices.Prelude.{◌≡◌, refl, true, false, none, [], ◌∷◌, arith}
use go_grpc_microservices.AudioCache.Entry.{Blob}
use go_grpc_microservices.Recorder.{
  Recorder, idle, start, granted, imported, stop, stopped, view, ready,
}
use go_grpc_microservices.Recorder.Tidy.{
  Reach, here, and_then, starts, grants, imports, AllTidy, IsSilent, Reach-idle,
}
use go_grpc_microservices.Recorder.Leaks.{double_start_leaks}

abbrev clip : Blob
clip = record { bytes = 7 ∷ 8 ∷ []; media = "audio/wav" }

abbrev recording : Recorder
recording = imported 100 (granted (start idle))

abbrev to_recording : Reach idle recording
unfolding start granted
to_recording =
    and_then (and_then (and_then here (starts refl refl refl)) (grants (omega arith)))
      (imports 100 (omega arith))

Reach-idle_example :
    AllTidy recording
    × (recording.is_recording ≡ false
        → recording.asking ≡ 0
        → recording.importing ≡ 0
        → IsSilent recording)
unfolding start granted
Reach-idle_example = Reach-idle to_recording

double_start_leaks_example :
    let both = imported 200 (granted (imported 100 (granted (start (start idle))))) in
    let t = stopped clip (stop true both) in
    (view none (start idle) ≡ ready)
    × (t.is_recording ≡ false)
    × (t.stream.held ≡ none)
    × (t.stream.live ≡ 0 ∷ [])
    × (t.timer.held ≡ none)
    × (t.timer.live ≡ 2 ∷ [])
double_start_leaks_example = double_start_leaks clip 100 200 here refl refl refl refl
