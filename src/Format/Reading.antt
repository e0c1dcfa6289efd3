-- ===== src/Format/Reading.antt =====
-- What a reader gets back from the times and sizes that are shown.
use mathlib.Core.List.{append-nil, append_assoc}
use go_grpc_microservices.Prelude.{
  ℕ, zero, suc, ◌+◌, ◌-◌, ◌*◌, ◌/◌, ◌%◌, ◌≡◌, ◌≤◌, ◌<◌, refl, sym, ap, ◌∙◌, List, [], ◌∷◌, ◌++◌,
  ltb, nat_eq, arith, if◌then◌else◌,
}
use go_grpc_microservices.Format.{
  digits, decimal, pad_2, format_time, player_time, to_tenths, fixed_1, format_file_size, kib, mib,
}

digits_append :
    (fuel n : ℕ) (out rest : List ℕ) → digits fuel n out ++ rest ≡ digits fuel n (out ++ rest)
unfolding digits
digits_append zero n out rest = refl
digits_append (suc fuel) n out rest =
    ground (arith, digits_append fuel (n / 10) ((b'0' + n % 10) ∷ out) rest)

-- A reader that goes on with the number at a digit reads what was written before a text.
module _ (read : ℕ → List ℕ → ℕ)
    (read_digit : (n d : ℕ) (out : List ℕ)
      → d < 10
      → read n ((b'0' + d) ∷ out) ≡ read (n * 10 + d) out) where
  read-digits : (fuel n : ℕ) (out : List ℕ) → n < fuel → read 0 (digits fuel n out) ≡ read n out
  unfolding digits
  read-digits zero n out h = absurd (omega arith)
  read-digits (suc fuel) n out h = ground (
    arith,
    read_digit 0 n out,
    read_digit (n / 10) (n % 10) out,
    read-digits fuel (n / 10) ((b'0' + n % 10) ∷ out),
  )

  pub read-decimal : (n : ℕ) (rest : List ℕ) → read 0 (decimal n ++ rest) ≡ read n rest
  unfolding decimal
  read-decimal n rest =
      ap (read 0) (digits_append (suc n) n [] rest) ∙ read-digits (suc n) n rest (omega arith)

  read-pad_2 : (n : ℕ) (rest : List ℕ) → read 0 (pad_2 n ++ rest) ≡ read n rest
  unfolding pad_2
  read-pad_2 n rest = ground (arith, read_digit 0 0 (decimal n ++ rest), read-decimal n rest)

-- Reading a time: a digit goes on with the number, a colon starts the next one, which counts
-- sixtieths.
abbrev read_time : ℕ → ℕ → List ℕ → ℕ
read_time total n [] = total + n
read_time total n (c ∷ cs) =
    let digit = read_time total (n * 10 + (c - b'0')) cs in
    let colon = read_time ((total + n) * 60) 0 cs in if nat_eq c b':' then colon else digit

read_time_digit :
    (total n d : ℕ) (out : List ℕ)
    → d < 10
    → read_time total n ((b'0' + d) ∷ out) ≡ read_time total (n * 10 + d) out
read_time_digit total n d out h = ground arith

read_time-pad_2 :
    (total n : ℕ) (rest : List ℕ) → read_time total 0 (pad_2 n ++ rest) ≡ read_time total n rest
read_time-pad_2 total = read-pad_2 (read_time total) (read_time_digit total)

read_last : (total n : ℕ) → read_time total 0 (pad_2 n) ≡ total + n
read_last total n = ap (read_time total 0) (sym (append-nil (pad_2 n))) ∙ read_time-pad_2 total n []

-- A time that is shown is read back, however many hours it has.
format_time-read : (seconds : ℕ) → read_time 0 0 (format_time seconds) ≡ seconds
unfolding format_time
format_time-read seconds =
    read_time-pad_2 0 (seconds / 3600) _
    ∙ (read_time-pad_2 ((0 + seconds / 3600) * 60) (seconds % 3600 / 60) _
        ∙ (read_last _ (seconds % 60) ∙ omega arith))

-- So is a time that the player shows, with or without hours.
player_time-read : (seconds : ℕ) → read_time 0 0 (player_time seconds) ≡ seconds
unfolding player_time
player_time-read seconds = ground (
  arith,
  read-decimal (read_time 0) (read_time_digit 0) (seconds / 3600)
      (b':' ∷ (pad_2 (seconds % 3600 / 60) ++ b':' ∷ pad_2 (seconds % 60))),
  read_time-pad_2 ((0 + seconds / 3600) * 60) (seconds % 3600 / 60) (b':' ∷ pad_2 (seconds % 60)),
  read-decimal (read_time 0) (read_time_digit 0) (seconds % 3600 / 60)
      (b':' ∷ pad_2 (seconds % 60)),
  read_last (((0 + seconds / 3600) * 60 + seconds % 3600 / 60) * 60) (seconds % 60),
  read_last ((0 + seconds % 3600 / 60) * 60) (seconds % 60),
)

-- Reading a size, in tenths of a byte: the point and the blank are passed over, so that sizes in
-- kilobytes and more are in tenths, and the first letter of the unit ends the reading.
abbrev read_size : ℕ → List ℕ → ℕ
read_size n [] = n
read_size n (c ∷ cs) =
    let skip = read_size n cs in
    let digit = read_size (n * 10 + (c - b'0')) cs in
    if nat_eq c b'B'
    then n * 10
    else if nat_eq c b'K'
    then n * kib
    else if nat_eq c b'M'
    then n * mib
    else if ltb c b'0'
    then skip
    else digit

-- The unit that a size is shown in, as the tenths of it that are shown; none of a byte is.
abbrev shown_unit : ℕ → ℕ
shown_unit bytes = if ltb bytes kib then 0 else if ltb bytes mib then kib else mib

read_size_digit :
    (n d : ℕ) (out : List ℕ) → d < 10 → read_size n ((b'0' + d) ∷ out) ≡ read_size (n * 10 + d) out
read_size_digit n d out h = ground arith

read_fixed_1 :
    (tenths : ℕ) (rest : List ℕ) → read_size 0 (fixed_1 tenths ++ rest) ≡ read_size tenths rest
unfolding fixed_1
read_fixed_1 tenths rest =
    ap (read_size 0)
      (append_assoc (decimal (tenths / 10)) (b'.' ∷ ((b'0' + tenths % 10) ∷ [])) rest)
    ∙ (read-decimal read_size read_size_digit (tenths / 10) _
        ∙ (read_size_digit (tenths / 10) (tenths % 10) rest (omega arith)
            ∙ ap (λ n. read_size n rest) (omega arith)))

-- The size that is shown is the size, to the nearest tenth of its unit: to the byte below 1 KB.
format_file_size-read :
    (bytes : ℕ)
    → (2 * read_size 0 (format_file_size bytes) ≤ 20 * bytes + shown_unit bytes)
      × (20 * bytes ≤ 2 * read_size 0 (format_file_size bytes) + shown_unit bytes)
unfolding format_file_size to_tenths
format_file_size-read bytes = ground (
  arith,
  read-decimal read_size read_size_digit bytes (b' ' ∷ b'B' ∷ []),
  read_fixed_1 (to_tenths kib bytes) (b' ' ∷ b'K' ∷ b'B' ∷ []),
  read_fixed_1 (to_tenths mib bytes) (b' ' ∷ b'M' ∷ b'B' ∷ []),
)
