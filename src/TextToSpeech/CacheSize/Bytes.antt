-- ===== src/TextToSpeech/CacheSize/Bytes.antt =====
-- The size of the cache as a text: `formatBytes` of
-- web/src/modules/text-to-speech/hooks/use-audio-cache.ts. The logarithm is a parameter; a text is
-- the list of its characters' codes.
use go_grpc_microservices.Prelude.{
  ℕ, zero, suc, ◌+◌, ◌-◌, ◌*◌, ◌/◌, ◌%◌, ◌≡◌, ◌≤◌, ◌<◌, ap, ◌∙◌, false, List, [], ◌∷◌, ◌++◌, nat_eq,
  arith, if◌then◌else◌,
}
use mathlib.Core.List.{append_assoc}
use go_grpc_microservices.Format.{decimal}
use go_grpc_microservices.Format.Reading.{read-decimal}

-- `Math.pow(k, i)`
abbrev pow_k : ℕ → ℕ
pow_k zero = 1
pow_k (suc i) = 1024 * pow_k i

-- `sizes[i]`, which is the text "undefined" from 1024 GB on
abbrev size_name : ℕ → List ℕ
size_name zero = b'B' ∷ []
size_name (suc zero) = b'K' ∷ b'B' ∷ []
size_name (suc (suc zero)) = b'M' ∷ b'B' ∷ []
size_name (suc (suc (suc zero))) = b'G' ∷ b'B' ∷ []
size_name _ = b'u' ∷ b'n' ∷ b'd' ∷ b'e' ∷ b'f' ∷ b'i' ∷ b'n' ∷ b'e' ∷ b'd' ∷ []

-- `(bytes / Math.pow(k, i)).toFixed(2)` in hundredths: the nearest number, the larger of two
to_hundredths : ℕ → ℕ → ℕ
to_hundredths unit n = (n * 100 + unit / 2) / unit

-- What `parseFloat` leaves of the two digits behind the point
abbrev fraction : ℕ → List ℕ
fraction h =
    if nat_eq (h % 100) 0
    then []
    else if nat_eq (h % 10) 0
    then b'.' ∷ (b'0' + h / 10 % 10) ∷ []
    else b'.' ∷ (b'0' + h / 10 % 10) ∷ (b'0' + h % 10) ∷ []

-- `parseFloat` of it, as a text again
hundredths_text : ℕ → List ℕ
unfolding decimal
hundredths_text h = decimal (h / 100) ++ fraction h

module _ (log_1024 : ℕ → ℕ) where
  -- `formatBytes`; `log_1024` is `Math.floor(Math.log(bytes) / Math.log(k))`
  format_bytes : ℕ → List ℕ
  unfolding hundredths_text to_hundredths
  format_bytes bytes =
      if nat_eq bytes 0
      then b'0' ∷ b' ' ∷ b'B' ∷ []
      else hundredths_text (to_hundredths (pow_k (log_1024 bytes)) bytes)
        ++ b' ' ∷ size_name (log_1024 bytes)

-- Reading a number in hundredths, up to a blank.
abbrev read_second : ℕ → List ℕ → ℕ
read_second n [] = n
read_second n (c ∷ cs) = if nat_eq c b' ' then n else n + (c - b'0')

abbrev read_first : ℕ → List ℕ → ℕ
read_first n [] = n
read_first n (c ∷ cs) = read_second (n + (c - b'0') * 10) cs

abbrev read_number : ℕ → List ℕ → ℕ
read_number n [] = n * 100
read_number n (c ∷ cs) =
    let digit = read_number (n * 10 + (c - b'0')) cs in
    let part = read_first (n * 100) cs in
    if nat_eq c b' ' then n * 100 else if nat_eq c b'.' then part else digit

read_number_digit :
    (n d : ℕ) (out : List ℕ)
    → d < 10
    → read_number n ((b'0' + d) ∷ out) ≡ read_number (n * 10 + d) out
read_number_digit n d out h = ground arith

read_fraction : (h : ℕ) (rest : List ℕ) → read_number (h / 100) (fraction h ++ b' ' ∷ rest) ≡ h
read_fraction h rest = ground arith

read_hundredths_text :
    (h : ℕ) (rest : List ℕ) → read_number 0 (hundredths_text h ++ b' ' ∷ rest) ≡ h
unfolding hundredths_text
read_hundredths_text h rest =
    ap (read_number 0) (append_assoc (decimal (h / 100)) (fraction h) (b' ' ∷ rest))
    ∙ (read-decimal read_number read_number_digit (h / 100) (fraction h ++ b' ' ∷ rest)
        ∙ read_fraction h rest)

-- Rounding to hundredths of one of the four units.
to_hundredths_nearest :
    (i n : ℕ)
    → i < 4
    → let u = pow_k i in
      (2 * (to_hundredths u n * u) ≤ 200 * n + u) × (200 * n ≤ 2 * (to_hundredths u n * u) + u)
unfolding to_hundredths
to_hundredths_nearest zero n h = (omega arith, omega arith)
to_hundredths_nearest (suc zero) n h = (omega arith, omega arith)
to_hundredths_nearest (suc (suc zero)) n h = (omega arith, omega arith)
to_hundredths_nearest (suc (suc (suc zero))) n h = (omega arith, omega arith)
to_hundredths_nearest (suc (suc (suc (suc i)))) n h = absurd (omega arith)

read_size_text :
    (log_1024 : ℕ → ℕ) (bytes : ℕ)
    → nat_eq bytes 0 ≡ false
    → read_number 0 (format_bytes log_1024 bytes) ≡ to_hundredths (pow_k (log_1024 bytes)) bytes
unfolding format_bytes
read_size_text log_1024 bytes h =
    rw (h, format_bytes)
      (read_hundredths_text (to_hundredths (pow_k (log_1024 bytes)) bytes)
        (size_name (log_1024 bytes)))

-- The size that is shown is the size, to the nearest hundredth of the unit that the logarithm
-- chooses, if that is one of the four that have a name.
format_bytes-read :
    (log_1024 : ℕ → ℕ) (bytes : ℕ)
    → nat_eq bytes 0 ≡ false
    → log_1024 bytes < 4
    → let u = pow_k (log_1024 bytes) in
      let shown = read_number 0 (format_bytes log_1024 bytes) in
      (2 * (shown * u) ≤ 200 * bytes + u) × (200 * bytes ≤ 2 * (shown * u) + u)
format_bytes-read log_1024 bytes h small =
    rw (read_size_text log_1024 bytes h) (to_hundredths_nearest (log_1024 bytes) bytes small)
