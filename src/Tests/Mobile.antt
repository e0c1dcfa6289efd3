-- ===== src/Tests/Mobile.antt =====
-- The small screen (Mobile) at concrete inputs.
use go_grpc_microservices.Prelude.{refl, true, none, [], ◌∷◌}
use go_grpc_microservices.Mobile.{
  Screen, mounted, unmounted, resized, run, IsCurrent, end, shown, gone, changed, run-IsCurrent,
}

abbrev wide : Screen
wide = record { width = 1024; state = none; listeners = 0 }

-- Narrowed while mounted and while not.
run-IsCurrent_example : IsCurrent true (
    run
      (mounted ∷ (resized 500 ∷ (unmounted ∷ (resized 900 ∷ (mounted ∷ (resized 600 ∷ []))))))
      wide)
run-IsCurrent_example =
    run-IsCurrent wide (shown (changed 500 (gone (changed 900 (shown (changed 600 end)))))) refl
