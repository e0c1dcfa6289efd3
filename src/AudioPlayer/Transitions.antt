-- ===== src/AudioPlayer/Transitions.antt =====
-- What can happen to a player (web/src/components/ui/audio-player.tsx), in whatever order.
use go_grpc_microservices.Prelude.{ℕ, ◌≡◌, ◌++◌, Option, List, [], ◌∷◌, nat_eq, if◌then◌else◌, In}
use go_grpc_microservices.Media.{MediaElement}
use go_grpc_microservices.AudioPlayer.{
  AudioPlayerItem, Target, Suspended, awaited, Player, set_active_item, play, pause, resume, seek,
  set_playback_rate, frame,
}

abbrev without_promise : ℕ → List ℕ → List ℕ
without_promise id [] = []
without_promise id (x ∷ xs) =
    let rest = without_promise id xs in if nat_eq x id then rest else x ∷ rest

module _ (m : MediaElement) where
  -- One thing that happens. The browser plays on, stops at the end and loads as it likes, but
  -- keeps the address and the rate; play promises settle as it likes.
  pub data Step (p : Player m) : Player m → Type 0 where
    sets_active_item : (item : Option AudioPlayerItem) → Step p (set_active_item m item p)
    plays : (target : Target) → Step p (play m target p)
    pauses : Step p (pause m p)
    seeks : (t : ℕ) → Step p (seek m t p)
    sets_playback_rate : (rate : ℕ) → Step p (set_playback_rate m rate p)
    frames : Step p (frame m p)
    settles : (id : ℕ) → Step p (record p { unsettled = without_promise id p.unsettled })
    resumes :
        (before : List Suspended) (c : Suspended) (after : List Suspended)
        → p.suspended ≡ before ++ c ∷ after
        → (In (awaited c) p.unsettled → ⊥)
        → Step p (resume m c (record p { suspended = before ++ after }))
    progresses :
        (e : m.Element)
        → m.src e ≡ m.src p.element
        → m.playback_rate e ≡ m.playback_rate p.element
        → Step p (record p { element = e })

  pub data Reach (p : Player m) : Player m → Type 0 where
    here : Reach p p
    then_ : {q r : Player m} → Reach p q → Step q r → Reach p r
