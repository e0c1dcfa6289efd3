-- ===== src/Tests/Playback.antt =====
-- Audio that is played from an address and then from another source (AudioPlayback).
use go_grpc_microservices.Prelude.{◌≡◌, refl, true, some, List, [], ◌∷◌}
use go_grpc_microservices.AudioPlayback.{
  initial, toggle_play, make, pause, play, Event, toggled, play_resolved, step, run, file,
}
use go_grpc_microservices.AudioPlayback.Sole.{IsSole, run-IsSole}

-- A click plays a recording, and the browser plays it.
abbrev plays : List Event
plays = toggled (some (file 7)) ∷ (play_resolved 0 ∷ [])

plays_shown : (run initial plays).is_playing ≡ true
unfolding step toggle_play make pause play
plays_shown = refl

run-IsSole_example : IsSole (run initial plays)
run-IsSole_example = run-IsSole plays initial refl
