-- ===== src/Tests/Frames.antt =====
-- The loop that follows the player's time (AnimationFrame) at concrete inputs.
use go_grpc_microservices.Prelude.{refl, true, [], ◌∷◌}
use go_grpc_microservices.AnimationFrame.{initial, run, mounted, frame, unmounted}
use go_grpc_microservices.AnimationFrame.Scheduled.{
  IsScheduled, end, shown, called, gone, run-IsScheduled,
}

-- Mounted, its frame called and one that is not scheduled, unmounted and mounted again.
run-IsScheduled_example :
    IsScheduled true (run initial (mounted ∷ frame 1 16 ∷ frame 1 33 ∷ unmounted ∷ mounted ∷ []))
run-IsScheduled_example =
    run-IsScheduled initial (shown (called 1 16 (called 1 33 (gone (shown end))))) refl
