-- ===== src/Recorder/Leaks.antt =====
-- Where the recorder leaves the microphone on (web/src/hooks/use-audio-recorder.ts).
use go_grpc_microservices.Prelude.{
  ℕ, suc, ◌≡◌, ◌≢◌, ◌<◌, refl, true, false, none, some, [], ◌∷◌, arith,
}
use go_grpc_microservices.AudioCache.Entry.{Blob}
use go_grpc_microservices.Recorder.{
  Slot, empty, release, take, Recorder, idle, cleanup, destroy_wave_surfer, start, granted,
  imported, stop, stopped, unmount, ready, view,
}
use go_grpc_microservices.Recorder.Tidy.{Reach, Reach-Inv}

held-take : (id : ℕ) (s : Slot) → (take id s).held ≡ some id
unfolding take
held-take id s = refl

-- A ref that is set twice names the second thing only.
retaken :
    (a b : ℕ) (s : Slot)
    → s ≡ empty
    → a < b
    → ((release (take b (take a s))).held ≡ none) × ((release (take b (take a s))).live ≡ a ∷ [])
unfolding take release
retaken a b s e h = (refl, ground arith)

-- "Record" is still shown while the browser asks for the microphone. If it is clicked again then,
-- from a hook at rest, and both requests are granted, then stopping the recording turns off the
-- second microphone only: the first stays on with its timer, and no ref names either any more.
pub double_start_leaks :
    {s : Recorder} (blob : Blob) (now later : ℕ)
    → Reach idle s
    → s.is_recording ≡ false
    → s.asking ≡ 0
    → s.importing ≡ 0
    → s.stopping ≡ []
    → let recording = imported later (granted (imported now (granted (start (start s))))) in
      let t = stopped blob (stop true recording) in
      (view none (start s) ≡ ready)
      × (t.is_recording ≡ false)
      × (t.stream.held ≡ none)
      × (t.stream.live ≡ s.next_id ∷ [])
      × (t.timer.held ≡ none)
      × (t.timer.live ≡ suc (suc s.next_id) ∷ [])
unfolding start granted imported stop stopped cleanup destroy_wave_surfer view
double_start_leaks {s} blob now later r off a i free =
    let v = Reach-Inv r in
    let n = s.next_id in
    let named = held-take (suc (suc (suc (suc n)))) (take (suc n) s.recorder) in
    let (off_ref, stream) = retaken n (suc (suc (suc n))) s.stream (ground arith) (omega arith) in
    let (off_timer, timer) =
      retaken (suc (suc n)) (suc (suc (suc (suc (suc n))))) s.timer (ground arith) (omega arith) in
    (ground arith, ground arith, ground arith, ground arith, ground arith, ground arith)

-- Nothing is released when the component goes during a recording but the drawing of its wave: the
-- recorder and the timer stay live, and so does the microphone if it is on.
unmount_leaks :
    {s : Recorder}
    → Reach idle s
    → s.is_recording ≡ true
    → ((unmount s).recorder.live ≢ [])
      × ((unmount s).timer.live ≢ [])
      × ((unmount s).stream.live ≡ s.stream.live)
unfolding unmount destroy_wave_surfer
unmount_leaks {s} r on = let v = Reach-Inv r in (ground arith, ground arith, ground arith)
