-- ===== src/TextToSpeech/Wave/Seeking.antt =====
-- Where the buttons of the player that draws a wave seek to (TextToSpeech.Wave).
use go_grpc_microservices.Prelude.{
  ℕ, ◌+◌, ◌-◌, ◌≤◌, ◌≡◌, refl, ap, ◌∙◌, String, true, false, Option, some, List, ◌∷◌, leb, ◌⊎◌, inl,
  inr, Bool-cases, Option-cases, if◌then◌else◌, arith,
}
use go_grpc_microservices.Text.{absent}
use go_grpc_microservices.TextToSpeech.Wave.{
  Wave, initial, leave, destroy_held, mount, seek_forward, seek_backward, seek_to, Event, changed,
  step, run,
}

told-forward :
    (s : Wave) (seconds time length id : ℕ)
    → s.held ≡ some id
    → (seek_forward seconds time length s).told
      ≡ (id, seek_to (if leb (time + seconds) length then time + seconds else length) length)
        ∷ s.told
unfolding seek_forward
told-forward s seconds time length id h = rw h refl

told-backward :
    (s : Wave) (seconds time length id : ℕ)
    → s.held ≡ some id
    → (seek_backward seconds time length s).told ≡ (id, seek_to (time - seconds) length) ∷ s.told
unfolding seek_backward
told-backward s seconds time length id h = rw h refl

-- Seeking stays within the audio: from a time in it, forwards leads to no earlier time in it, and
-- backwards to no later one; and backwards undoes forwards unless that stopped at the end.
seek_within :
    (s : Wave) (seconds time length id : ℕ)
    → s.held ≡ some id
    → time ≤ length
    → (t : ℕ) × (u : ℕ) × ((seek_forward seconds time length s).told
        ≡ (id, seek_to t length) ∷ s.told)
      × ((seek_backward seconds time length s).told ≡ (id, seek_to u length) ∷ s.told)
      × (time ≤ t)
      × (t ≤ length)
      × (u ≤ time)
      × (((seek_backward seconds t length s).told ≡ (id, seek_to time length) ∷ s.told)
          ⊎ (t ≡ length))
seek_within s seconds time length id h fits = (
  (if leb (time + seconds) length then time + seconds else length),
  time - seconds,
  told-forward s seconds time length id h,
  told-backward s seconds time length id h,
  ground arith,
  ground arith,
  ground arith,
  elim (Bool-cases (leb (time + seconds) length)) [
    | inl e ↦ inl (rw e (undo (time + seconds) (omega arith)))
    | inr e ↦ inr (rw e refl)
  ],
)
  where
    undo :
        (t : ℕ)
        → t - seconds ≡ time
        → (seek_backward seconds t length s).told ≡ (id, seek_to time length) ∷ s.told
    undo t e = told-backward s seconds t length id h ∙ ap (λ u. (id, seek_to u length) ∷ s.told) e

seek_none : (seconds : ℕ) → (if leb (0 + seconds) 0 then 0 + seconds else 0) ≡ 0
seek_none seconds = ground arith

leave-is_ready : (s : Wave) → ((leave s).is_ready ≡ s.is_ready) × ((leave s).fresh ≡ s.fresh)
unfolding leave
leave-is_ready s = elim (Option-cases s.mounted) [
  | inl e ↦ rw e (refl, refl)
  | inr (id, e) ↦ rw e (refl, refl)
]

mount-held :
    (url : Option String) (s : Wave)
    → absent url ≡ false
    → ((mount true url s).held ≡ some s.fresh) × ((mount true url s).is_ready ≡ s.is_ready)
unfolding mount destroy_held
mount-held url s h = elim (Option-cases s.held) [
  | inl e ↦ rw (h, e) (refl, refl)
  | inr (id, e) ↦ rw (h, e) (refl, refl)
]

-- Once a wave was ready, the buttons stay enabled when another address is shown: a click while the
-- new instance has no duration yet has it seek to the time 0 of a duration 0, which is 0 / 0.
switched_seek_undefined :
    (es : List Event) (url : Option String) (seconds : ℕ)
    → (run initial es).is_ready ≡ true
    → absent url ≡ false
    → let s = step (run initial es) (changed true url) in
      (s.is_ready ≡ true)
      × (s.held ≡ some (run initial es).fresh)
      × ((seek_forward seconds 0 0 s).told ≡ ((run initial es).fresh, seek_to 0 0) ∷ s.told)
unfolding step
switched_seek_undefined es url seconds r h =
    let s = run initial es in
    let held = (mount-held url (leave s) h).0 ∙ ap some (leave-is_ready s).1 in
    (
      (mount-held url (leave s) h).1 ∙ ((leave-is_ready s).0 ∙ r),
      held,
      told-forward (mount true url (leave s)) seconds 0 0 s.fresh held
          ∙ ap (λ t. (s.fresh, seek_to t 0) ∷ (mount true url (leave s)).told) (seek_none seconds),
    )
