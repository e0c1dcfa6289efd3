-- ===== src/AnimationFrame/Scheduled.antt =====
-- How many frames are scheduled (AnimationFrame).
use go_grpc_microservices.Prelude.{
  ℕ, ◌≡◌, refl, ap, Bool, true, false, some, List, [], ◌∷◌, arith, inl, inr, Bool-cases,
}
use go_grpc_microservices.Recorder.Refs.{drop_id}
use go_grpc_microservices.AudioPlayback.{has_id}
use go_grpc_microservices.AnimationFrame.{
  Frames, request_frame, animate, clean_up, Event, mounted, frame, unmounted, step, run,
}

-- Frames and unmounting while mounted, and the other way round: the component is mounted first,
-- and again only after it was unmounted.
pub data Life : Bool → List Event → Bool → Type 0 where
  end : {b : Bool} → Life b [] b
  shown : {es : List Event} {b : Bool} → Life true es b → Life false (mounted ∷ es) b
  called :
      {es : List Event} {a b : Bool} (id time : ℕ) → Life a es b → Life a (frame id time ∷ es) b
  gone : {es : List Event} {b : Bool} → Life false es b → Life true (unmounted ∷ es) b

-- While mounted just the frame of the ref is scheduled, else none is.
abbrev pub IsScheduled : Bool → Frames → Type 0
IsScheduled true s = (id : ℕ) × (s.request ≡ some id) × (s.scheduled ≡ id ∷ [])
IsScheduled false s = s.scheduled ≡ []

dropped : (id j : ℕ) (xs : List ℕ) → xs ≡ j ∷ [] → has_id id xs ≡ true → drop_id id xs ≡ []
dropped id j xs h e = ground arith

cleaned :
    (s : Frames) (id : ℕ)
    → s.request ≡ some id
    → s.scheduled ≡ id ∷ []
    → (clean_up s).scheduled ≡ []
unfolding clean_up
cleaned s id r h = ground arith

frame-IsScheduled :
    (b : Bool) (id time : ℕ) (s : Frames) → IsScheduled b s → IsScheduled b (step s (frame id time))
unfolding step animate request_frame
frame-IsScheduled true id time s (j, r, h) = elim (Bool-cases (has_id id s.scheduled)) [
  | inl e ↦ rw e (s.fresh, refl, ap (λ xs. s.fresh ∷ xs) (dropped id j s.scheduled h e))
  | inr e ↦ rw e (j, r, h)
]
frame-IsScheduled false id time s h = ground arith

-- Whenever the component is mounted and unmounted and its frames are called, one frame is scheduled
-- while it is mounted, the one that the cleanup cancels, and none while it is not.
pub run-IsScheduled :
    {a b : Bool} {es : List Event} (s : Frames)
    → Life a es b
    → IsScheduled a s
    → IsScheduled b (run s es)
unfolding step request_frame clean_up
run-IsScheduled s end h = h
run-IsScheduled s (shown l) h =
    run-IsScheduled (request_frame s) l (s.fresh, refl, ap (λ xs. s.fresh ∷ xs) h)
run-IsScheduled s (called {a = a} id time l) h =
    run-IsScheduled (step s (frame id time)) l (frame-IsScheduled a id time s h)
run-IsScheduled s (gone l) h = run-IsScheduled (clean_up s) l (cleaned s h.0 h.1 h.2)
