-- ===== src/Tests/Format.antt =====
-- The texts of some sizes and times (Format).
use go_grpc_microservices.Prelude.{◌≡◌, refl, [], ◌∷◌}
use go_grpc_microservices.Format.{format_time, format_file_size, player_time}

time_text : format_time 3725 ≡ b'0' ∷ b'1' ∷ b':' ∷ b'0' ∷ b'2' ∷ b':' ∷ b'0' ∷ b'5' ∷ []
unfolding format_time
time_text = refl

size_text : format_file_size 1536 ≡ b'1' ∷ b'.' ∷ b'5' ∷ b' ' ∷ b'K' ∷ b'B' ∷ []
unfolding format_file_size
size_text = refl

-- The player writes no hours before the first one.
player_time_text : player_time 65 ≡ b'1' ∷ b':' ∷ b'0' ∷ b'5' ∷ []
unfolding player_time
player_time_text = refl

-- A size just under 1 MB is rounded up to 1024 KB.
below_mib_text :
    format_file_size 1048575 ≡ b'1' ∷ b'0' ∷ b'2' ∷ b'4' ∷ b'.' ∷ b'0' ∷ b' ' ∷ b'K' ∷ b'B' ∷ []
unfolding format_file_size
below_mib_text = refl
