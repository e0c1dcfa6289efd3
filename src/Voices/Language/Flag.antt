-- ===== src/Voices/Language/Flag.antt =====
-- The flag that is shown for a country (Voices.Language).
use Prim.Native.Char.{code}
use go_grpc_microservices.Prelude.{
  ℕ, ◌+◌, ◌-◌, ◌≡◌, ◌≤◌, refl, String, List, [], ◌∷◌, All, map, arith,
}
use go_grpc_microservices.Voices.Language.{flag_of, char_code_at_0}

-- The code points of a text.
abbrev pub codes : String → List ℕ
codes String.[] = []
codes (String.◌∷◌ c s) = code c ∷ codes s

-- The letter that a regional indicator stands for.
abbrev letter_of : ℕ → ℕ
letter_of p = p - 0x1f1e6 + b'A'

abbrev IsIndicator : ℕ → Type 0
IsIndicator p = (0x1f1e6 ≤ p) × (p ≤ 0x1f1ff)

-- For a country in capital letters, of any number, the flag consists of regional indicators, and
-- they spell the country.
flag_of_lem :
    (country : String)
    → All (λ c. (b'A' ≤ c) × (c ≤ b'Z')) (codes country)
    → All IsIndicator (flag_of country) × (map letter_of (flag_of country) ≡ codes country)
unfolding flag_of char_code_at_0
flag_of_lem String.[] h = (tt, refl)
flag_of_lem (String.◌∷◌ c s) h =
    let rest = flag_of_lem s h.1 in
    let same : char_code_at_0 (code c) ≡ code c = capital (code c) h.0.1 in
    ((omega arith, rest.0), λ i. letter (code c) (char_code_at_0 (code c)) h.0.0 same i ∷ rest.1 i)
  where
    capital : (n : ℕ) → n ≤ b'Z' → char_code_at_0 n ≡ n
    capital n h = ground arith

    letter : (n m : ℕ) → b'A' ≤ n → m ≡ n → letter_of (0x1f1e6 + m - 65) ≡ n
    letter n m h e = omega arith
