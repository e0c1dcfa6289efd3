-- ===== src/AudioPlayer/Sources.antt =====
-- What the element plays, and how fast (web/src/components/ui/audio-player.tsx).
use go_grpc_microservices.Prelude.{
  eq_iff, eq_refl, ℕ, ◌≡◌, refl, ◌∙◌, String, true, inl, inr, Option, none, some, ◌++◌, arith,
  if◌then◌else◌, Bool-cases,
}
use go_grpc_microservices.Media.{MediaElement}
use go_grpc_microservices.AudioPlayer.{
  AudioPlayerItem, Target, current, given, playing, pausing, ItemId, text, number, Player, fresh,
  same_id, id_eq, set_source, load_item, set_active_item, start_play, run_play, play, run_pause,
  pause, resume, seek, set_playback_rate, frame,
}
use go_grpc_microservices.AudioPlayer.Transitions.{
  Step, Reach, sets_active_item, plays, pauses, seeks, sets_playback_rate, frames, settles, resumes,
  progresses, here, then_,
}

abbrev source_of : Option AudioPlayerItem → Option String
source_of none = none
source_of (some item) = some item.src

pub id_eq_refl : (id : ItemId) → id_eq id id ≡ true
id_eq_refl (text t) = eq_refl t
id_eq_refl (number n) = ground arith

pub id_eq_symm : (a b : ItemId) → id_eq a b ≡ true → id_eq b a ≡ true
id_eq_symm (text a) (text b) h = ground (arith, eq_iff a b, eq_iff b a)
id_eq_symm (number a) (number b) h = ground arith
id_eq_symm (text a) (number b) h = cc
id_eq_symm (number a) (text b) h = cc

module _ (m : MediaElement) where
  -- The element's address is that of the item in `itemRef`.
  abbrev pub IsInTune : Player m → Type 0
  IsInTune p = m.src p.element ≡ source_of p.item_ref

  src-set_source :
      (item : Option AudioPlayerItem) (e : m.Element) → m.src (set_source m item e) ≡ source_of item
  src-set_source none e = m.src-remove_src e
  src-set_source (some item) e = m.src-set_src item.src e

  pub src-load_item :
      (rate : ℕ) (item : Option AudioPlayerItem) (e : m.Element)
      → m.src (load_item m rate item e) ≡ source_of item
  unfolding load_item
  src-load_item rate item e =
      rw (m.src-set_playback_rate, m.src-load) (src-set_source item (m.set_current_time 0 e))

  rate-load_item :
      (rate : ℕ) (item : Option AudioPlayerItem) (e : m.Element)
      → m.playback_rate (load_item m rate item e) ≡ rate
  unfolding load_item
  rate-load_item rate item e = m.playback_rate-set_playback_rate rate _

  run_play-IsInTune :
      (target : Target) (active : Option AudioPlayerItem) (p : Player m)
      → IsInTune p
      → IsInTune (run_play m target active p)
  unfolding run_play start_play
  run_play-IsInTune current active p h = m.src-play p.element ∙ h
  run_play-IsInTune (given item) active p h = elim (Bool-cases (same_id item active)) [
    | inl e ↦ rw e (m.src-play p.element ∙ h)
    | inr e ↦ rw e (m.src-play _ ∙ src-load_item _ item _)
  ]

  run_pause-IsInTune : (p : Player m) → IsInTune p → IsInTune (run_pause m p)
  unfolding run_pause
  run_pause-IsInTune p h = m.src-pause p.element ∙ h

  Step-IsInTune : {p q : Player m} → Step m p q → IsInTune p → IsInTune q
  unfolding set_active_item play pause seek set_playback_rate frame resume
  Step-IsInTune {p} (sets_active_item item) h =
      ground (arith, src-load_item (m.playback_rate p.element) item (m.pause p.element))
  Step-IsInTune {p} (plays target) h = ground (arith, run_play-IsInTune target p.active_item p)
  Step-IsInTune {p} pauses h = ground (arith, run_pause-IsInTune p)
  Step-IsInTune {p} (seeks t) h = ground (arith, m.src-set_current_time t p.element)
  Step-IsInTune {p} (sets_playback_rate rate) h =
      ground (arith, m.src-set_playback_rate rate p.element)
  Step-IsInTune {p} frames h = ground arith
  Step-IsInTune {p} (settles id) h = h
  Step-IsInTune {p} (resumes before (playing id target active) after e k) h =
      run_play-IsInTune target active (record p { suspended = before ++ after }) h
  Step-IsInTune {p} (resumes before (pausing id) after e k) h =
      run_pause-IsInTune (record p { suspended = before ++ after }) h
  Step-IsInTune {p} (progresses e same rate) h = same ∙ h

  -- The rate that was set last.
  abbrev pub chosen : {p q : Player m} → Reach m p q → ℕ
  chosen {p} here = m.playback_rate p.element
  chosen (then_ {q} r (sets_playback_rate rate)) = if q.mounted then rate else chosen r
  chosen (then_ r _) = chosen r

  rate-load_paused :
      (item : Option AudioPlayerItem) (p : Player m)
      → m.playback_rate (load_item m (m.playback_rate p.element) item (m.pause p.element))
        ≡ m.playback_rate p.element
  rate-load_paused item p = rate-load_item _ item _

  rate-run_play :
      (target : Target) (active : Option AudioPlayerItem) (p : Player m)
      → m.playback_rate (run_play m target active p).element ≡ m.playback_rate p.element
  unfolding run_play start_play
  rate-run_play current active p = m.playback_rate-play p.element
  rate-run_play (given item) active p = elim (Bool-cases (same_id item active)) [
    | inl e ↦ rw e (m.playback_rate-play p.element)
    | inr e ↦ rw e (m.playback_rate-play _ ∙ rate-load_item _ item _)
  ]

  rate-run_pause :
      (p : Player m) → m.playback_rate (run_pause m p).element ≡ m.playback_rate p.element
  unfolding run_pause
  rate-run_pause p = m.playback_rate-pause p.element

  Step-rate : {p q : Player m} (s : Step m p q) → m.playback_rate q.element ≡ chosen (then_ here s)
  unfolding set_active_item play pause seek set_playback_rate frame resume
  Step-rate {p} (sets_active_item item) = ground (arith, rate-load_paused item p)
  Step-rate {p} (plays target) = ground (arith, rate-run_play target p.active_item p)
  Step-rate {p} pauses = ground (arith, rate-run_pause p)
  Step-rate {p} (seeks t) = ground (arith, m.playback_rate-set_current_time t p.element)
  Step-rate {p} (sets_playback_rate rate) =
      ground (arith, m.playback_rate-set_playback_rate rate p.element)
  Step-rate {p} frames = ground arith
  Step-rate {p} (settles id) = refl
  Step-rate {p} (resumes before (playing id target active) after e k) =
      rate-run_play target active (record p { suspended = before ++ after })
  Step-rate {p} (resumes before (pausing id) after e k) =
      rate-run_pause (record p { suspended = before ++ after })
  Step-rate {p} (progresses e same rate) = rate

  chosen-then :
      {p q t : Player m} (r : Reach m p q) (s : Step m q t)
      → m.playback_rate q.element ≡ chosen r
      → chosen (then_ here s) ≡ chosen (then_ r s)
  chosen-then {q} r (sets_playback_rate rate) h = ground arith
  chosen-then r _ h = h

  Reach-IsInTune : {p q : Player m} → IsInTune p → Reach m p q → IsInTune q
  Reach-IsInTune h here = h
  Reach-IsInTune h (then_ r s) = Step-IsInTune s (Reach-IsInTune h r)

  Reach-rate : {p q : Player m} (r : Reach m p q) → m.playback_rate q.element ≡ chosen r
  Reach-rate here = refl
  Reach-rate (then_ r s) = Step-rate s ∙ chosen-then r s (Reach-rate r)

  -- Whatever is played, paused and switched in whatever order, from a player without an item: the
  -- element's address is always that of the item in `itemRef`, and it plays at the rate that was
  -- set last, which no change of the item loses.
  pub Reach-fresh :
      (e : m.Element) {q : Player m}
      → m.src e ≡ none
      → (r : Reach m (fresh m e) q) → IsInTune q × (m.playback_rate q.element ≡ chosen r)
  Reach-fresh e h r = (Reach-IsInTune h r, Reach-rate r)
