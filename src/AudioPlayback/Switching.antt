-- ===== src/AudioPlayback/Switching.antt =====
-- What is left behind when a hook that plays audio gets another source (AudioPlayback).
use go_grpc_microservices.Prelude.{
  ℕ, ◌≡◌, refl, Bool, true, false, Option, none, some, List, [], ◌∷◌, ◌⊎◌, inl, inr, In,
  Option-cases, Bool-cases, if◌then◌else◌, ◌∙◌, ap,
}
use go_grpc_microservices.Recorder.Refs.{drop_id}
use go_grpc_microservices.AudioPlayback.{
  Playback, initial, pause, play, make, toggle_play, change, Event, toggled, changed, play_resolved,
  play_rejected, ended, can_play_through, step, run, Source, file, address, has_id, is_absent,
  add_url,
}
use go_grpc_microservices.AudioPlayback.Sole.{change-silent, run-IsSole}

change-is_playing : (s : Playback) → (change s).is_playing ≡ s.is_playing
unfolding change pause
change-is_playing s = elim (Option-cases s.element) [ inl e ↦ rw e refl | inr (id, e) ↦ rw e refl ]

-- A click while audio plays, as the hook believes, pauses the element.
toggle_play-pauses :
    (src : Option Source) (s : Playback)
    → is_absent src ≡ false
    → s.is_playing ≡ true
    → toggle_play src s ≡ record (pause (make src s).0 (make src s).1) { is_playing = false }
unfolding toggle_play
toggle_play-pauses src s a p = simp (a, p) refl

-- With no element, the first click after a switch makes one.
make_new :
    (src : Option Source) (s : Playback) → s.element ≡ none → (make src s).1.sounding ≡ s.sounding
unfolding make
make_new src s h = rw h refl

-- If audio plays, after whatever events, and the source changes to another one, then nothing
-- sounds, but the button still shows that audio plays; and the next click plays nothing either.
switched_click_silent :
    (es : List Event) (src : Option Source)
    → (run initial es).is_playing ≡ true
    → is_absent src ≡ false
    → ((change (run initial es)).is_playing ≡ true)
      × ((change (run initial es)).sounding ≡ [])
      × ((toggle_play src (change (run initial es))).is_playing ≡ false)
      × ((toggle_play src (change (run initial es))).sounding ≡ [])
unfolding toggle_play pause
switched_click_silent es src h p =
    let s = change (run initial es) in
    let silent = change-silent (run initial es) (run-IsSole es initial refl) in
    let playing : s.is_playing ≡ true = change-is_playing (run initial es) ∙ h in
    (
      playing,
      silent.1,
      ap (λ t. t.is_playing) (toggle_play-pauses src s p playing),
      ap (λ t. t.sounding) (toggle_play-pauses src s p playing)
          ∙ ap (drop_id (make src s).0) (make_new src s silent.0 ∙ silent.1),
    )

add_url-In : (src : Option Source) (id u : ℕ) (us : List ℕ) → In u us → In u (add_url src id us)
add_url-In none id u us h = h
add_url-In (some (address a)) id u us h = h
add_url-In (some (file f)) id u us h = inr h

make-urls : (src : Option Source) (s : Playback) (u : ℕ) → In u s.urls → In u (make src s).1.urls
unfolding make
make-urls src s u h = elim (Option-cases s.element) [
  | inl e ↦ rw e (add_url-In src s.fresh u s.urls h)
  | inr (id, e) ↦ rw e h
]

change-urls : (s : Playback) → (change s).urls ≡ s.urls
unfolding change pause
change-urls s = elim (Option-cases s.element) [ inl e ↦ rw e refl | inr (id, e) ↦ rw e refl ]

toggle_play-urls :
    (src : Option Source) (s : Playback) (u : ℕ)
    → (is_absent src ≡ false) ⊎ In u s.urls
    → In u (make src s).1.urls
    → In u (toggle_play src s).urls
unfolding toggle_play pause play
toggle_play-urls src s u h g = go (is_absent src) s.is_playing (make src s) h g
  where
    go :
        (b c : Bool) (t : ℕ × Playback)
        → (b ≡ false) ⊎ In u s.urls
        → In u t.1.urls
        → In u
            (if b
              then s
              else if c
              then record (pause t.0 t.1) { is_playing = false }
              else record (play t.0 t.1) { is_loading = true }).urls
    go true c t (inl e) g = cc
    go true c t (inr h) g = h
    go false true t h g = g
    go false false t h g = g

step-urls : (s : Playback) (e : Event) (u : ℕ) → In u s.urls → In u (step s e).urls
unfolding step pause
step-urls s (toggled src) u h = toggle_play-urls src s u (inr h) (make-urls src s u h)
step-urls s changed u h = rw (change-urls s) h
step-urls s (play_resolved id) u h = elim (Bool-cases (has_id id s.waiting)) [
  | inl e ↦ rw e h
  | inr e ↦ rw e h
]
step-urls s (play_rejected id) u h = elim (Bool-cases (has_id id s.waiting)) [
  | inl e ↦ rw e h
  | inr e ↦ rw e h
]
step-urls s (ended id) u h = elim (Bool-cases (has_id id s.sounding)) [
  | inl e ↦ rw e h
  | inr e ↦ rw e h
]
step-urls s can_play_through u h = h

run-urls : (es : List Event) (s : Playback) (u : ℕ) → In u s.urls → In u (run s es).urls
run-urls [] s u h = h
run-urls (e ∷ es) s u h = run-urls es (step s e) u (step-urls s e u h)

make-file : (f : ℕ) (s : Playback) → s.element ≡ none → In s.fresh (make (some (file f)) s).1.urls
unfolding make
make-file f s h = rw h (inl refl)

-- The object URL of a file is never revoked: once a click made an element for the file, its URL
-- is live whatever is clicked, switched and answered afterwards.
file_url_leaks :
    (f : ℕ) (es : List Event) (s : Playback)
    → s.element ≡ none
    → In s.fresh (run (toggle_play (some (file f)) s) es).urls
file_url_leaks f es s h =
    run-urls es (toggle_play (some (file f)) s) s.fresh
      (toggle_play-urls (some (file f)) s s.fresh (inl refl) (make-file f s h))
