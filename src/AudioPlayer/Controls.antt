-- ===== src/AudioPlayer/Controls.antt =====
-- The controls of the player (web/src/components/ui/audio-player.tsx): the buttons and the bar.
use go_grpc_microservices.Prelude.{
  ap, ℕ, ◌≡◌, refl, sym, ◌∙◌, Bool, true, false, not, ◌&&◌, inl, inr, Option, none, some, List, [],
  ◌∷◌, arith, Bool-cases,
}
use go_grpc_microservices.Media.{MediaElement}
use go_grpc_microservices.AudioPlayer.{
  AudioPlayerItem, Target, current, given, Suspended, Player, same_id, id_eq, start_play, run_play,
  play, run_pause, pause, resume, seek, frame, click, button_playing, is_item_active, pointer_down,
  pointer_up,
}
use go_grpc_microservices.AudioPlayer.Sources.{id_eq_refl, id_eq_symm}

not-not : (b : Bool) → not (not b) ≡ b
not-not true = refl
not-not false = refl

module _ (m : MediaElement) where
  -- The suspended calls go on, oldest first: the play promise that they await has settled.
  pub run_suspended : List Suspended → Player m → Player m
  run_suspended [] p = p
  run_suspended (c ∷ cs) p = run_suspended cs (resume m c p)

  pub finish : Player m → Player m
  unfolding run_suspended
  finish p = run_suspended p.suspended (record p { suspended = [] })

  -- A frame has just been shown, and no call is suspended.
  pub record IsShown (p : Player m) : Type 0 where
    pub is_mounted : p.mounted ≡ true
    pub quiet : p.suspended ≡ []
    pub same_pause : p.paused ≡ m.paused p.element
    pub same_item : p.active_item ≡ p.item_ref

  -- Once the calls have gone on, `pause` has paused the element and `play()` has started it.
  finish-pause :
      (p : Player m) → p.mounted ≡ true → p.suspended ≡ [] → finish (pause m p) ≡ run_pause m p
  unfolding pause finish resume run_pause
  finish-pause p mounted quiet = ground arith

  finish-play :
      (p : Player m) (target : Target)
      → p.mounted ≡ true
      → p.suspended ≡ []
      → finish (play m target p) ≡ run_play m target p.active_item p
  unfolding play finish resume run_play start_play
  finish-play p current mounted quiet = ground arith
  finish-play p (given item) mounted quiet = ground arith

  finish_quiet :
      (p : Player m)
      → p.suspended ≡ []
      → ((finish p).element ≡ p.element)
        × ((finish p).item_ref ≡ p.item_ref)
        × ((finish p).active_item ≡ p.active_item)
        × ((finish p).mounted ≡ p.mounted)
  unfolding finish
  finish_quiet p quiet = ground arith

  -- A pause and a seek.
  after_seek :
      (t : ℕ) (p : Player m)
      → p.mounted ≡ true
      → p.suspended ≡ []
      → let s = seek m t (run_pause m p) in
        (s.mounted ≡ true)
        × (s.suspended ≡ [])
        × (m.paused s.element ≡ true)
        × (m.src s.element ≡ m.src p.element)
        × (s.item_ref ≡ p.item_ref)
  unfolding seek run_pause
  after_seek t p mounted quiet =
      let stopped = m.paused-pause p.element in
      let kept = m.src-pause p.element in
      let still = m.paused-set_current_time t (m.pause p.element) in
      let same = m.src-set_current_time t (m.pause p.element) in
      (ground arith, ground arith, ground arith, ground arith, ground arith)

  -- For an element that the browser lets play: one that `play()` was called on is not paused.
  module _ (plays : (e : m.Element) → m.paused (m.play e) ≡ false) where
    run_play_current :
        (p : Player m) (active : Option AudioPlayerItem)
        → let q = run_play m current active p in
          (m.paused q.element ≡ false)
          × (m.src q.element ≡ m.src p.element)
          × (q.item_ref ≡ p.item_ref)
          × (q.mounted ≡ p.mounted)
    unfolding run_play start_play
    run_play_current p active = (plays p.element, m.src-play p.element, refl, refl)

    run_pause_lem :
        (p : Player m)
        → let q = run_pause m p in
          (q.mounted ≡ p.mounted) × (m.paused q.element ≡ true) × (q.item_ref ≡ p.item_ref)
    unfolding run_pause
    run_pause_lem p = (refl, m.paused-pause p.element, refl)

    released :
        (was : Bool) (s : Player m)
        → s.mounted ≡ true
        → s.suspended ≡ []
        → m.paused s.element ≡ true
        → let up = finish (pointer_up m was s) in
          (m.paused up.element ≡ not was)
          × (m.src up.element ≡ m.src s.element)
          × (up.item_ref ≡ s.item_ref)
    unfolding pointer_up
    released true s mounted quiet stopped =
        let left = run_play_current s s.active_item in
        rw (finish-play s current mounted quiet) (left.0, left.1, left.2)
    released false s mounted quiet stopped =
        let same = finish_quiet s quiet in (ap m.paused same.0 ∙ stopped, ap m.src same.0, same.1)

    after_down :
        (p : Player m)
        → IsShown p
        → ((pointer_down m p).0 ≡ not p.paused) × (finish (pointer_down m p).1 ≡ run_pause m p)
    unfolding pointer_down
    after_down p h = (refl, finish-pause p h.is_mounted h.quiet)

    -- Dragging the bar keeps what is played and whether it plays: after the pointer went down and
    -- up again, with a seek in between, and the calls that this made have gone on, the element is
    -- paused if it was before, and has the address and the item that it had.
    scrub_keeps :
        (t : ℕ) {p : Player m}
        → IsShown p
        → let down = pointer_down m p in
          let up = finish (pointer_up m down.0 (seek m t (finish down.1))) in
          (m.paused up.element ≡ m.paused p.element)
          × (m.src up.element ≡ m.src p.element)
          × (up.item_ref ≡ p.item_ref)
    scrub_keeps t {p} h =
        let down = after_down p h in
        let left = after_seek t p h.is_mounted h.quiet in
        let up = released (not p.paused) (seek m t (run_pause m p)) left.0 left.1 left.2 in
        rw (down.0, down.1) (up.0 ∙ not-not p.paused ∙ h.same_pause, up.1 ∙ left.3, up.2 ∙ left.4)

    -- The button belongs to what is active.
    abbrev shows : Option AudioPlayerItem → Option AudioPlayerItem → Bool
    shows none active = true
    shows (some item) none = false
    shows (some item) (some active) = id_eq active.id item.id

    button_playing_lem :
        (target : Option AudioPlayerItem) (p : Player m)
        → button_playing m target p ≡ (shows target p.active_item && not p.paused)
    unfolding button_playing is_item_active
    button_playing_lem none p = refl
    button_playing_lem (some item) p = ground arith

    button_playing-frame :
        (target : Option AudioPlayerItem) (q : Player m)
        → q.mounted ≡ true
        → button_playing m target (frame m q)
          ≡ (shows target q.item_ref && not (m.paused q.element))
    unfolding frame
    button_playing-frame target q mounted = ground (arith, button_playing_lem target (frame m q))

    shown_same :
        (item : AudioPlayerItem) (active ref : Option AudioPlayerItem)
        → active ≡ ref
        → same_id (some item) active ≡ true
        → shows (some item) ref ≡ true
    shown_same item active none shown e = ground arith
    shown_same item active (some other) shown e =
        id_eq_symm item.id other.id (ap (same_id (some item)) (sym shown) ∙ e)

    shown_playing :
        (item : AudioPlayerItem) (p : Player m)
        → p.active_item ≡ p.item_ref
        → button_playing m (some item) p ≡ true
        → shows (some item) p.item_ref ≡ true
    shown_playing item p shown e = ground (arith, button_playing_lem (some item) p)

    -- What `play` leaves, for the button that is not playing.
    after_play :
        (item : AudioPlayerItem) (p : Player m)
        → p.active_item ≡ p.item_ref
        → let q = run_play m (given (some item)) p.active_item p in
          (q.mounted ≡ p.mounted)
          × (m.paused q.element ≡ false)
          × (shows (some item) q.item_ref ≡ true)
    unfolding run_play start_play
    after_play item p shown = elim (Bool-cases (same_id (some item) p.active_item)) [
      | inl e ↦ rw e (refl, plays _, shown_same item p.active_item p.item_ref shown e)
      | inr e ↦ rw e (refl, plays _, id_eq_refl item.id)
    ]

    after_click :
        (target : Option AudioPlayerItem) (p : Player m)
        → IsShown p
        → let q = finish (click m target p) in
          (q.mounted ≡ true)
          × (m.paused q.element ≡ button_playing m target p)
          × (shows target q.item_ref ≡ true)
    unfolding click
    after_click none p h =
        let stopped = run_pause_lem p in
        let started = run_play_current p p.active_item in
        elim (Bool-cases (button_playing m none p)) [
          | inl e ↦
              rw (e, finish-pause p h.is_mounted h.quiet)
                (stopped.0 ∙ h.is_mounted, stopped.1, refl)
          | inr e ↦
              rw (e, finish-play p current h.is_mounted h.quiet)
                (started.3 ∙ h.is_mounted, started.0, refl)
        ]
    after_click (some item) p h =
        let stopped = run_pause_lem p in
        let started = after_play item p h.same_item in
        elim (Bool-cases (button_playing m (some item) p)) [
          | inl e ↦
              rw (e, finish-pause p h.is_mounted h.quiet)
                (
                  stopped.0 ∙ h.is_mounted,
                  stopped.1,
                  ap (shows (some item)) stopped.2 ∙ shown_playing item p h.same_item e,
                )
          | inr e ↦
              rw (e, finish-play p (given (some item)) h.is_mounted h.quiet)
                (started.0 ∙ h.is_mounted, started.1, started.2)
        ]

    -- A click on a button toggles what the button shows, once the call that it makes has gone on
    -- and a frame has been shown: the button of an item, and the one for whatever is active.
    click_toggles :
        (target : Option AudioPlayerItem) {p : Player m}
        → IsShown p
        → button_playing m target (frame m (finish (click m target p)))
          ≡ not (button_playing m target p)
    click_toggles target {p} h =
        let (mounted, stopped, shown) = after_click target p h in
        rw (button_playing-frame target (finish (click m target p)) mounted, shown, stopped)
