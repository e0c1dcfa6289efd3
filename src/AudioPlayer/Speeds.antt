-- ===== src/AudioPlayer/Speeds.antt =====
-- The menu and the row of buttons for the player's speed: `AudioPlayerSpeed` and
-- `AudioPlayerSpeedButtonGroup` of web/src/components/ui/audio-player.tsx. A speed is in hundredths.
use go_grpc_microservices.Prelude.{
  ℕ, ◌≡◌, ap, ◌∙◌, Bool, true, List, [], ◌∷◌, All, nat_eq, arith, if◌then◌else◌, none,
}
use go_grpc_microservices.Media.{MediaElement}
use go_grpc_microservices.AudioPlayer.{Player, fresh, set_playback_rate, frame}
use go_grpc_microservices.AudioPlayer.Transitions.{Reach}
use go_grpc_microservices.AudioPlayer.Sources.{chosen, Reach-fresh}

-- `PLAYBACK_SPEEDS`
abbrev playback_speeds : List ℕ
playback_speeds = 25 ∷ 50 ∷ 75 ∷ 100 ∷ 125 ∷ 150 ∷ 175 ∷ 200 ∷ []

-- The speeds of the row of buttons, unless others are given
abbrev button_speeds : List ℕ
button_speeds = 50 ∷ 100 ∷ 150 ∷ 200 ∷ []

-- "Normal", or a number with an x
pub data SpeedLabel : Type 0 where
  normal : SpeedLabel
  times : ℕ → SpeedLabel

-- An item of the menu or a button, and whether it has the mark of the current speed.
pub record SpeedItem : Type 0 where
  pub speed : ℕ
  pub label : SpeedLabel
  pub is_current : Bool

module _ (m : MediaElement) where
  -- `AudioPlayerSpeed`
  speed_menu : List ℕ → Player m → List SpeedItem
  speed_menu [] p = []
  speed_menu (speed ∷ speeds) p =
      record {
        speed = speed;
        label = if nat_eq speed 100 then normal else times speed;
        is_current = nat_eq p.playback_rate speed;
      }
      ∷ speed_menu speeds p

  -- `AudioPlayerSpeedButtonGroup`
  speed_buttons : List ℕ → Player m → List SpeedItem
  speed_buttons [] p = []
  speed_buttons (speed ∷ speeds) p =
      record { speed = speed; label = times speed; is_current = nat_eq p.playback_rate speed }
      ∷ speed_buttons speeds p

  -- `onClick` of an item and of a button
  unfoldable pub pick_speed : SpeedItem → Player m → Player m
  unfolding set_playback_rate
  pick_speed item p = set_playback_rate m item.speed p

  abbrev IsMarked : ℕ → SpeedItem → Type 0
  IsMarked rate item = item.is_current ≡ nat_eq rate item.speed

  IsMarked-speed_menu :
      (speeds : List ℕ) (p : Player m) (rate : ℕ)
      → p.playback_rate ≡ rate
      → All (IsMarked rate) (speed_menu speeds p) × All (IsMarked rate) (speed_buttons speeds p)
  unfolding speed_menu speed_buttons
  IsMarked-speed_menu [] p rate h = (tt, tt)
  IsMarked-speed_menu (speed ∷ speeds) p rate h =
      let rest = IsMarked-speed_menu speeds p rate h in
      let now : nat_eq p.playback_rate speed ≡ nat_eq rate speed = ap (λ r. nat_eq r speed) h in
      ((now, rest.0), (now, rest.1))

  frame-rate :
      (p : Player m) → p.mounted ≡ true → (frame m p).playback_rate ≡ m.playback_rate p.element
  unfolding frame
  frame-rate p h = ground arith

  -- Whatever was played, paused and switched in whatever order, from a player without an item: once
  -- the next frame is shown, the menu and the buttons mark the speed that was set last and no other,
  -- also after a change of the item, which resets the speed of the element.
  IsMarked-chosen :
      (e : m.Element) {q : Player m} (speeds : List ℕ)
      → m.src e ≡ none
      → q.mounted ≡ true
      → (r : Reach m (fresh m e) q)
      → All (IsMarked (chosen m r)) (speed_menu speeds (frame m q))
        × All (IsMarked (chosen m r)) (speed_buttons speeds (frame m q))
  IsMarked-chosen e {q} speeds h shown r =
      IsMarked-speed_menu speeds (frame m q) (chosen m r)
        (frame-rate q shown ∙ (Reach-fresh m e h r).1)
