-- ===== src/AudioPlayback/Sole.antt =====
-- What sounds while a hook plays audio (AudioPlayback).
use go_grpc_microservices.Prelude.{
  ℕ, ◌≡◌, Option, none, some, List, [], ◌∷◌, ◌⊎◌, inl, inr, refl, arith, Option-cases, Bool-cases,
  subst, ap, true, false, Bool, if◌then◌else◌,
}
use go_grpc_microservices.Recorder.Refs.{drop_id}
use go_grpc_microservices.AudioPlayback.{
  Playback, pause, play, make, toggle_play, change, Event, toggled, changed, play_resolved,
  play_rejected, ended, can_play_through, step, run, Source, has_id, is_absent,
}

-- What the elements are, given the one that `audioRef` names: no other sounds.
abbrev IsSounding : Option ℕ → List ℕ → Type 0
IsSounding none sounding = sounding ≡ []
IsSounding (some id) sounding = (sounding ≡ []) ⊎ (sounding ≡ id ∷ [])

abbrev pub IsSole : Playback → Type 0
IsSole s = IsSounding s.element s.sounding

pause-IsSounding :
    (o : Option ℕ) (id : ℕ) (xs : List ℕ) → IsSounding o xs → IsSounding o (drop_id id xs)
pause-IsSounding none id xs h = ground arith
pause-IsSounding (some x) id xs (inl h) = ground arith
pause-IsSounding (some x) id xs (inr h) = ground arith

drop-held : (id : ℕ) (xs : List ℕ) → IsSounding (some id) xs → drop_id id xs ≡ []
drop-held id xs (inl h) = ground arith
drop-held id xs (inr h) = ground arith

-- `togglePlay` goes on with the element that is in `audioRef` then.
make-held :
    (src : Option Source) (s : Playback)
    → IsSole s
    → ((make src s).1.element ≡ some (make src s).0)
      × IsSounding (some (make src s).0) (make src s).1.sounding
unfolding make
make-held src s h = elim (Option-cases s.element) [
  | inl e ↦ rw e (refl, inl (subst (λ o. IsSounding o s.sounding) e h))
  | inr (id, e) ↦ rw e (refl, subst (λ o. IsSounding o s.sounding) e h)
]

paused-IsSole :
    (id : ℕ) (s : Playback)
    → (s.element ≡ some id) × IsSounding (some id) s.sounding
    → IsSole (pause id s)
unfolding pause
paused-IsSole id s h = rw h.0 (inl (drop-held id s.sounding h.1))

played-IsSole :
    (id : ℕ) (s : Playback)
    → (s.element ≡ some id) × IsSounding (some id) s.sounding
    → IsSole (play id s)
unfolding play
played-IsSole id s h = rw h.0 (inr (ap (λ xs. id ∷ xs) (drop-held id s.sounding h.1)))

toggle_play-IsSole : (src : Option Source) (s : Playback) → IsSole s → IsSole (toggle_play src s)
unfolding toggle_play
toggle_play-IsSole src s h = go (is_absent src) s.is_playing (make src s) (make-held src s h)
  where
    go :
        (b c : Bool) (t : ℕ × Playback)
        → (t.1.element ≡ some t.0) × IsSounding (some t.0) t.1.sounding
        → IsSole (
            if b
            then s
            else if c
            then record (pause t.0 t.1) { is_playing = false }
            else record (play t.0 t.1) { is_loading = true })
    go true c t g = h
    go false true t g = paused-IsSole t.0 t.1 g
    go false false t g = played-IsSole t.0 t.1 g

pub change-silent :
    (s : Playback) → IsSole s → ((change s).element ≡ none) × ((change s).sounding ≡ [])
unfolding change pause
change-silent s h = elim (Option-cases s.element) [
  | inl e ↦ rw e (refl, subst (λ o. IsSounding o s.sounding) e h)
  | inr (id, e) ↦ rw e (refl, drop-held id s.sounding (subst (λ o. IsSounding o s.sounding) e h))
]

pub step-IsSole : (s : Playback) (e : Event) → IsSole s → IsSole (step s e)
unfolding step pause
step-IsSole s (toggled src) h = toggle_play-IsSole src s h
step-IsSole s changed h = rw (change-silent s h).0 (change-silent s h).1
step-IsSole s (play_resolved id) h = elim (Bool-cases (has_id id s.waiting)) [
  | inl e ↦ rw e h
  | inr e ↦ rw e h
]
step-IsSole s (play_rejected id) h = elim (Bool-cases (has_id id s.waiting)) [
  | inl e ↦ rw e (pause-IsSounding s.element id s.sounding h)
  | inr e ↦ rw e h
]
step-IsSole s (ended id) h = elim (Bool-cases (has_id id s.sounding)) [
  | inl e ↦ rw e (pause-IsSounding s.element id s.sounding h)
  | inr e ↦ rw e h
]
step-IsSole s can_play_through h = h

-- Whatever is clicked, switched and answered in whatever order, nothing sounds but the element in
-- `audioRef`, and it only once; without one there is silence.
pub run-IsSole : (es : List Event) (s : Playback) → IsSole s → IsSole (run s es)
run-IsSole [] s h = h
run-IsSole (e ∷ es) s h = run-IsSole es (step s e) (step-IsSole s e h)
