-- ===== src/Tests/Wave.antt =====
-- A wave that is played, sought in and replaced (TextToSpeech.Wave).
use go_grpc_microservices.Prelude.{◌≡◌, refl, true, false, some, List, [], ◌∷◌}
use go_grpc_microservices.TextToSpeech.Wave.{
  initial, leave, destroy_held, mount, on_ready, Event, changed, ready, toggled, gone, played, step,
  run,
}
use go_grpc_microservices.TextToSpeech.Wave.Sole.{
  IsMounted, Life, end, shown, left, other, run-IsMounted,
}

-- A wave of 30 seconds is shown.
abbrev shows : List Event
shows = changed true (some "/a") ∷ (ready 0 30 false ∷ [])

is_shown : (run initial shows).is_ready ≡ true
unfolding step mount leave destroy_held on_ready
is_shown = refl

is_held : (run initial shows).held ≡ some 0
unfolding step mount leave destroy_held on_ready
is_held = refl

-- It is played, and the component goes.
abbrev shows_and_goes : List Event
shows_and_goes =
    changed true (some "/a") ∷ (ready 0 30 false ∷ (toggled ∷ (gone ∷ (played 0 ∷ []))))

goes : Life false shows_and_goes false
goes =
    shown true (some "/a")
      (other (ready 0 30 false) refl (other toggled refl (left (other (played 0) refl end))))

run-IsMounted_example : IsMounted false (run initial shows_and_goes)
run-IsMounted_example = run-IsMounted initial goes (refl, refl)
