-- ===== src/Tests/Player.antt =====
-- The theorems on the audio player (web/src/components/ui/audio-player.tsx) at concrete inputs.
use go_grpc_microservices.Prelude.{◌≡◌, refl, true, none, some}
use go_grpc_microservices.Media.{SimpleElement, simple_media}
use go_grpc_microservices.AudioPlayer.{
  text, AudioPlayerItem, given, Player, fresh, play, set_playback_rate, frame,
}
use go_grpc_microservices.AudioPlayer.Transitions.{
  Reach, here, then_, plays, frames, sets_playback_rate,
}
use go_grpc_microservices.AudioPlayer.Sources.{IsInTune, chosen, Reach-fresh}
use go_grpc_microservices.AudioPlayer.Controls.{IsShown}

abbrev element : SimpleElement
element = record { address = none; is_paused = true; time = 0; rate = 100 }

abbrev first : AudioPlayerItem
first = record { id = text "a"; src = "blob:a" }

abbrev second : AudioPlayerItem
second = record { id = text "b"; src = "blob:b" }

abbrev start : Player simple_media
start = fresh simple_media element

abbrev sped_up : Player simple_media
sped_up =
    frame simple_media
      (set_playback_rate simple_media 150 (play simple_media (given (some first)) start))

abbrev faster : Reach simple_media start sped_up
faster = then_ (then_ (then_ here (plays (given (some first)))) (sets_playback_rate 150)) frames

Reach-fresh_example :
    IsInTune simple_media sped_up × (sped_up.element.rate ≡ chosen simple_media faster)
Reach-fresh_example = Reach-fresh simple_media element refl faster

-- The first item is shown, and has played to its end.
abbrev shown : Player simple_media
shown = record start {
  item_ref = some first;
  active_item = some first;
  element = record element { address = some "blob:a" };
}

shown-IsShown : IsShown simple_media shown
shown-IsShown = record { is_mounted = refl; quiet = refl; same_pause = refl; same_item = refl }
