-- ===== src/Recorder.antt =====
-- web/src/hooks/use-audio-recorder.ts, and the panel that drives it,
-- web/src/modules/voices/components/voice-recorder.tsx. The microphone, RecordRTC and WaveSurfer
-- are things that the refs of the hook name and that are live until they are released.
pub mod Refs
pub mod Tidy
pub mod Leaks
use go_grpc_microservices.Prelude.{
  ℕ, suc, ◌-◌, String, Bool, true, false, not, ◌||◌, Option, none, some, List, [], ◌∷◌, ◌++◌,
  nat_eq, if◌then◌else◌,
}
use go_grpc_microservices.AudioCache.Entry.{Blob}
pub use Refs.{Slot, empty, IsTidy, take-IsTidy, release-empty}
unfoldable pub use Refs.{take, release}

pub record Recorder : Type 0 where
  -- the states of the hook; the elapsed time is in milliseconds
  pub is_recording : Bool
  pub elapsed_time : ℕ
  pub audio_blob : Option Blob
  pub error : Option String
  -- its refs, with what is live of each kind
  pub recorder : Slot
  pub stream : Slot
  pub timer : Slot
  pub wave : Slot
  pub mic : Slot
  -- calls of `startRecording` that await the microphone, and those that await the import
  pub asking : ℕ
  pub importing : ℕ
  -- calls of `recorder.stopRecording` not answered yet: whether there is an `onBlob` to call
  pub stopping : List Bool
  -- what `onBlob` was called with, newest first
  pub delivered : List Blob
  -- the start time of each timer, and the next name
  pub starts : List (ℕ × ℕ)
  pub next_id : ℕ
  -- what the effect last ran for, and whether it left a cleanup
  pub effect_for : Bool
  pub effect_cleanup : Bool

abbrev pub idle : Recorder
idle = record {
  is_recording = false;
  elapsed_time = 0;
  audio_blob = none;
  error = none;
  recorder = empty;
  stream = empty;
  timer = empty;
  wave = empty;
  mic = empty;
  asking = 0;
  importing = 0;
  stopping = [];
  delivered = [];
  starts = [];
  next_id = 0;
  effect_for = false;
  effect_cleanup = false;
}

-- `destroyWaveSurfer`
unfoldable pub destroy_wave_surfer : Recorder → Recorder
destroy_wave_surfer s = record s { mic = release s.mic; wave = release s.wave }

-- `cleanup`
unfoldable pub cleanup : Recorder → Recorder
unfolding destroy_wave_surfer
cleanup s =
    destroy_wave_surfer (record s {
      timer = release s.timer;
      recorder = release s.recorder;
      stream = release s.stream;
    })

-- `startRecording`, up to the request for the microphone
unfoldable pub start : Recorder → Recorder
start s = record s { error = none; audio_blob = none; elapsed_time = 0; asking = suc s.asking }

-- … the microphone is granted, up to the import
unfoldable pub granted : Recorder → Recorder
granted s = record s {
  stream = take s.next_id s.stream;
  next_id = suc s.next_id;
  asking = s.asking - 1;
  importing = suc s.importing;
}

-- … the `catch`: whether the error is a "NotAllowedError"
unfoldable pub caught : Bool → Recorder → Recorder
unfolding cleanup
caught not_allowed s = record (cleanup s) {
  error = some (
      if not_allowed
      then "Microphone access denied. Please allow microphone access in your browser settings."
      else "Failed to access microphone. Please check your device.");
}

unfoldable pub refused : Bool → Recorder → Recorder
unfolding caught
refused not_allowed s = caught not_allowed (record s { asking = s.asking - 1 })

unfoldable pub import_failed : Recorder → Recorder
unfolding caught
import_failed s = caught false (record s { importing = s.importing - 1 })

-- … the import is there at the time `now`, and the rest of the function
unfoldable pub imported : ℕ → Recorder → Recorder
imported now s = record s {
  recorder = take s.next_id s.recorder;
  is_recording = true;
  timer = take (suc s.next_id) s.timer;
  starts = (suc s.next_id, now) ∷ s.starts;
  next_id = suc (suc s.next_id);
  importing = s.importing - 1;
}

abbrev start_of : ℕ → List (ℕ × ℕ) → ℕ
start_of id [] = 0
start_of id ((j, t) ∷ ts) = if nat_eq j id then t else start_of id ts

-- The callback of the interval: a timer ticks.
unfoldable pub tick : ℕ → ℕ → Recorder → Recorder
tick id now s = record s { elapsed_time = now - start_of id s.starts }

-- `stopRecording`
unfoldable pub stop : Bool → Recorder → Recorder
stop wants s = elim s.recorder.held [
  | none ↦ s
  | some id ↦ record s { stopping = s.stopping ++ wants ∷ [] }
]

-- … the callback of `recorder.stopRecording`
unfoldable pub stopped : Blob → Recorder → Recorder
unfolding cleanup
stopped blob s = elim s.stopping [
  | [] ↦ s
  | wants ∷ rest ↦ record (cleanup (record s { audio_blob = some blob; is_recording = false })) {
    stopping = rest;
    delivered = if wants then blob ∷ s.delivered else s.delivered;
  }
]

-- `resetRecording`
unfoldable pub reset : Recorder → Recorder
unfolding cleanup
reset s = record (cleanup s) {
  is_recording = false;
  elapsed_time = 0;
  audio_blob = none;
  error = none;
}

-- The body of the effect, with whether its container is on the page.
unfoldable pub run_effect : Bool → Recorder → Recorder
run_effect container s =
    if not s.is_recording || not container
    then record s { effect_cleanup = false }
    else elim s.stream.held [
      | none ↦ record s { effect_cleanup = false }
      | some id ↦ record s {
        wave = take s.next_id s.wave;
        mic = take (suc s.next_id) s.mic;
        next_id = suc (suc s.next_id);
        effect_cleanup = true;
      }
    ]

-- A render: the effect runs again if `isRecording` has changed, after what it left to clean up.
unfoldable pub render : Bool → Recorder → Recorder
unfolding run_effect destroy_wave_surfer
render container s =
    if (if s.effect_for then s.is_recording else not s.is_recording)
    then s
    else run_effect container (record (if s.effect_cleanup then destroy_wave_surfer s else s) {
      effect_for = s.is_recording;
    })

-- The component goes: only the effect has something to clean up.
unfoldable pub unmount : Recorder → Recorder
unfolding destroy_wave_surfer
unmount s = if s.effect_cleanup then destroy_wave_surfer s else s

-- What `VoiceRecorder` shows.
pub data View : Type 0 where
  problem : String → View
  recorded : Blob → View
  recording : View
  ready : View

unfoldable pub view : Option Blob → Recorder → View
view file s = elim s.error [
  | some message ↦ problem message
  | none ↦ elim file [
    | some blob ↦ recorded blob
    | none ↦ if s.is_recording then recording else ready
  ]
]

-- `new File([blob], "recording.wav", { type: "audio/wav" })`
abbrev recorded_file : Blob → Blob
recorded_file blob = record blob { media = "audio/wav" }

-- `handleStop`, when the recorder has stopped: the file of the panel and the hook.
unfoldable pub handle_stopped : Blob → Option Blob × Recorder → Option Blob × Recorder
unfolding stopped
handle_stopped blob (file, s) = (
  elim s.stopping [ [] ↦ file | wants ∷ rest ↦ if wants then some (recorded_file blob) else file ],
  stopped blob s,
)

-- `handleReRecord`
unfoldable pub handle_re_record : Option Blob × Recorder → Option Blob × Recorder
unfolding reset
handle_re_record (file, s) = (none, reset s)
