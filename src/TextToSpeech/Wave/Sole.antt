-- ===== src/TextToSpeech/Wave/Sole.antt =====
-- The instances that are live while waves are shown (TextToSpeech.Wave).
use go_grpc_microservices.Prelude.{
  ℕ, ◌≡◌, refl, ap, ◌∙◌, String, Bool, true, false, not, ◌||◌, Option, none, some, List, [], ◌∷◌,
  inl, inr, subst, Option-cases, Bool-cases, arith,
}
use go_grpc_microservices.Text.{absent}
use go_grpc_microservices.Recorder.Refs.{drop_id}
use go_grpc_microservices.TextToSpeech.Wave.{
  Wave, leave, destroy_held, mount, toggle_play_pause, seek_forward, seek_backward, Event, changed,
  gone, toggled, sought_forward, sought_backward, ready, played, paused, time_updated, failed,
  on_ready, on_error, step, run,
}

-- What is live, by what the effect mounted and what the ref holds.
abbrev AreMounted : Option ℕ → Option ℕ → List ℕ → Type 0
AreMounted none held live = live ≡ []
AreMounted (some id) held live = (held ≡ some id) × (live ≡ id ∷ [])

leave-empty :
    (s : Wave)
    → AreMounted s.mounted s.held s.live
    → ((leave s).mounted ≡ none) × ((leave s).live ≡ [])
unfolding leave
leave-empty s h = elim (Option-cases s.mounted) [
  | inl e ↦ rw e (refl, subst (λ o. AreMounted o s.held s.live) e h)
  | inr (id, e) ↦
      let p : (s.held ≡ some id) × (s.live ≡ id ∷ []) =
        subst (λ o. AreMounted o s.held s.live) e h in
      rw e (refl, ap (drop_id id) p.1 ∙ ground arith)
]

destroy_held-empty : (s : Wave) → s.live ≡ [] → (destroy_held s).live ≡ []
unfolding destroy_held
destroy_held-empty s h = elim (Option-cases s.held) [
  | inl e ↦ rw e h
  | inr (id, e) ↦ rw e (ap (drop_id id) h)
]

mounted_by :
    (container : Bool) (url : Option String) (s : Wave)
    → s.mounted ≡ none
    → s.live ≡ []
    → AreMounted
        (mount container url s).mounted
        (mount container url s).held
        (mount container url s).live
unfolding mount
mounted_by container url s m h = elim (Bool-cases (not container || absent url)) [
  | inl e ↦ rw (e, m) h
  | inr e ↦ rw e (refl, ap (λ xs. s.fresh ∷ xs) (destroy_held-empty s h))
]

-- The events other than a run of the effect and the end of the component.
abbrev pub is_quiet : Event → Bool
is_quiet (changed container url) = false
is_quiet gone = false
is_quiet _ = true

kept_by :
    (s : Wave) (e : Event)
    → is_quiet e ≡ true
    → ((step s e).mounted ≡ s.mounted) × ((step s e).held ≡ s.held) × ((step s e).live ≡ s.live)
unfolding step toggle_play_pause seek_forward seek_backward on_ready on_error
kept_by s (changed container url) q = cc
kept_by s gone q = cc
kept_by s toggled q = ground arith
kept_by s (sought_forward seconds time length) q = ground arith
kept_by s (sought_backward seconds time length) q = ground arith
kept_by s (ready id length autoplay) q = ground arith
kept_by s (played id) q = ground arith
kept_by s (paused id) q = ground arith
kept_by s (time_updated id time) q = ground arith
kept_by s (failed id) q = ground arith

-- The events of a component that is there, or is not, at the first and at the last: its effect
-- runs when it comes and whenever its address changes, and it goes only where it is.
pub data Life : Bool → List Event → Bool → Type 0 where
  end : {b : Bool} → Life b [] b
  shown :
      {es : List Event} {a b : Bool} (container : Bool) (url : Option String)
      → Life true es b
      → Life a (changed container url ∷ es) b
  left : {es : List Event} {b : Bool} → Life false es b → Life true (gone ∷ es) b
  other :
      {es : List Event} {a b : Bool} (e : Event)
      → is_quiet e ≡ true
      → Life a es b
      → Life a (e ∷ es) b

-- While the component is there, the live player is the one that its effect mounted; once it is
-- gone, none is live.
abbrev pub IsMounted : Bool → Wave → Type 0
IsMounted true s = AreMounted s.mounted s.held s.live
IsMounted false s = (s.mounted ≡ none) × (s.live ≡ [])

step-IsMounted :
    (b : Bool) (s : Wave) (e : Event) → is_quiet e ≡ true → IsMounted b s → IsMounted b (step s e)
step-IsMounted true s e q h = let (m, held, live) = kept_by s e q in rw (m, held, live) h
step-IsMounted false s e q (m, live) = let k = kept_by s e q in (k.0 ∙ m, k.2 ∙ live)

left_by : (b : Bool) (s : Wave) → IsMounted b s → ((leave s).mounted ≡ none) × ((leave s).live ≡ [])
unfolding leave
left_by true s h = leave-empty s h
left_by false s (m, live) = rw m (refl, live)

-- Whatever addresses are shown, clicked and reported in whatever order, and however often the
-- component comes and goes: while it is there, at most one wave player is live, and it is the one
-- that the buttons act on and the cleanup destroys; and whenever the component is gone, none is.
pub run-IsMounted :
    {a b : Bool} {es : List Event} (s : Wave) → Life a es b → IsMounted a s → IsMounted b (run s es)
unfolding step
run-IsMounted s end h = h
run-IsMounted {a = a} s (shown container url l) h =
    let empty = left_by a s h in
    run-IsMounted (mount container url (leave s)) l
      (mounted_by container url (leave s) empty.0 empty.1)
run-IsMounted s (left l) h = run-IsMounted (leave s) l (left_by true s h)
run-IsMounted s (other {a = a} e q l) h = run-IsMounted (step s e) l (step-IsMounted a s e q h)
