-- ===== src/Format.antt =====
-- What is shown of sizes and times: `formatFileSize` of web/src/lib/utils.ts, and `formatTime` of
-- web/src/modules/voices/components/voice-recorder.tsx, and `formatTime` of
-- web/src/components/ui/audio-player.tsx. A text is the list of its characters'
-- codes; a size is in bytes and a time in whole seconds, which `Math.floor` leaves of it.
pub mod Reading
use go_grpc_microservices.Prelude.{
  ℕ, zero, suc, ◌+◌, ◌*◌, ◌/◌, ◌%◌, String, Bool, true, false, List, [], ◌∷◌, ◌++◌, ltb, ◌≡◌, refl,
  if◌then◌else◌,
}

-- The digits of a number in front of a text, on as much fuel as the number and one.
unfoldable pub digits : ℕ → ℕ → List ℕ → List ℕ
digits zero n out = out
digits (suc fuel) n out =
    let rest = digits fuel (n / 10) ((b'0' + n % 10) ∷ out) in
    if ltb n 10 then (b'0' + n) ∷ out else rest

-- `String(n)`
unfoldable pub decimal : ℕ → List ℕ
unfolding digits
decimal n = digits (suc n) n []

-- `String(n).padStart(2, "0")`
unfoldable pub pad_2 : ℕ → List ℕ
unfolding decimal
pad_2 n = if ltb n 10 then b'0' ∷ decimal n else decimal n

-- `formatTime`
unfoldable pub format_time : ℕ → List ℕ
unfolding pad_2
format_time seconds =
    pad_2 (seconds / 3600) ++ b':' ∷ (pad_2 (seconds % 3600 / 60) ++ b':' ∷ pad_2 (seconds % 60))

-- `formatTime` of the player: hours only if there are any, and the first number is not padded
unfoldable pub player_time : ℕ → List ℕ
unfolding pad_2
player_time seconds =
    if ltb 0 (seconds / 3600)
    then decimal (seconds / 3600)
      ++ b':' ∷ (pad_2 (seconds % 3600 / 60) ++ b':' ∷ pad_2 (seconds % 60))
    else decimal (seconds % 3600 / 60) ++ b':' ∷ pad_2 (seconds % 60)

-- The duration of a media element: not known, not a number, or infinite, as of a stream.
pub data Duration : Type 0 where
  undefined nan infinite : Duration
  seconds : ℕ → Duration

abbrev no_time : List ℕ
no_time = b'-' ∷ b'-' ∷ b':' ∷ b'-' ∷ b'-' ∷ []

-- "Infinity:NaN:NaN", which `formatTime` makes of Infinity
abbrev infinite_time : List ℕ
infinite_time =
    b'I' ∷ b'n' ∷ b'f' ∷ b'i' ∷ b'n' ∷ b'i' ∷ b't' ∷ b'y' ∷ b':' ∷ b'N' ∷ b'a' ∷ b'N' ∷ b':' ∷ b'N'
    ∷ b'a' ∷ b'N' ∷ []

-- What `AudioPlayerDuration` shows
unfoldable pub shown_duration : Duration → List ℕ
unfolding player_time
shown_duration undefined = no_time
shown_duration nan = no_time
shown_duration infinite = infinite_time
shown_duration (seconds n) = player_time n

-- Whether the progress bar is disabled
unfoldable pub is_bar_disabled : Duration → Bool
is_bar_disabled undefined = true
is_bar_disabled nan = true
is_bar_disabled infinite = true
is_bar_disabled (seconds n) = false

-- `(n / unit).toFixed(1)`, in tenths: the nearest number, the larger of two. The quotient by a
-- power of two is exact for the sizes of files.
unfoldable pub to_tenths : ℕ → ℕ → ℕ
to_tenths unit n = (n * 10 + unit / 2) / unit

unfoldable pub fixed_1 : ℕ → List ℕ
unfolding decimal
fixed_1 tenths = decimal (tenths / 10) ++ b'.' ∷ ((b'0' + tenths % 10) ∷ [])

abbrev pub kib : ℕ
kib = 1024

abbrev pub mib : ℕ
mib = 1024 * 1024

abbrev bytes_unit : List ℕ
bytes_unit = b' ' ∷ b'B' ∷ []

-- `formatFileSize`
unfoldable pub format_file_size : ℕ → List ℕ
unfolding fixed_1 to_tenths
format_file_size bytes =
    if ltb bytes kib
    then decimal bytes ++ bytes_unit
    else if ltb bytes mib
    then fixed_1 (to_tenths kib bytes) ++ b' ' ∷ b'K' ∷ b'B' ∷ []
    else fixed_1 (to_tenths mib bytes) ++ b' ' ∷ b'M' ∷ b'B' ∷ []
