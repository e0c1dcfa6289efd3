-- ===== src/TextToSpeech/Download/FileName.antt =====
-- The name of a download is a file name whatever the text is
-- (web/src/modules/text-to-speech/components/voice-preview-panel.tsx).
use go_grpc_microservices.Prelude.{
  ℕ, ◌≡◌, ◌≤◌, refl, ap, ◌∙◌, ◌⊎◌, inl, inr, Bool, true, false, not, ◌&&◌, ◌||◌, List, [], ◌∷◌, map,
  nat_eq, leb, arith, zero, suc, if◌then◌else◌, Bool-cases,
}
use go_grpc_microservices.TextToSpeech.Download.{
  take, is_alphanumeric, dashed, strip_start, strip_end, small, safe_name,
}
use go_grpc_microservices.Units.{drop_spaces, is_nil, trim_end}

-- A small letter of ASCII or a digit.
abbrev is_small : ℕ → Bool
is_small c = (leb b'0' c && leb c b'9') || (leb b'a' c && leb c b'z')

-- Dashes stand only between characters that pass the test: not at the start, where the `Bool` is
-- true, not after another dash, and, unless the end is open, not at the end.
abbrev slug : (ℕ → Bool) → Bool → Bool → List ℕ → Bool
slug p open_end dash [] = open_end || not dash
slug p open_end dash (c ∷ cs) =
    let after_dash = slug p open_end true cs in
    let after_char = slug p open_end false cs in
    if nat_eq c b'-' then not dash && after_dash else p c && after_char

strip_start-dashed : (cs : List ℕ) → strip_start (dashed false cs) ≡ dashed true cs
unfolding strip_start dashed is_alphanumeric
strip_start-dashed [] = refl
strip_start-dashed (c ∷ cs) = ground arith

dashed-slug : (run : Bool) (cs : List ℕ) → slug is_alphanumeric true run (dashed run cs) ≡ true
unfolding dashed is_alphanumeric
dashed-slug run [] = refl
dashed-slug run (c ∷ cs) = ground (arith, dashed-slug true cs, dashed-slug false cs)

strip_end-nonempty :
    (c : ℕ) (cs : List ℕ)
    → slug is_alphanumeric true true (c ∷ cs) ≡ true
    → is_nil (strip_end (c ∷ cs)) ≡ false
unfolding strip_end
strip_end-nonempty c [] h = ground arith
strip_end-nonempty c (d ∷ cs) h = refl

strip_end-slug :
    (dash : Bool) (cs : List ℕ)
    → slug is_alphanumeric true dash cs ≡ true
    → (dash ≡ false) ⊎ (is_nil (strip_end cs) ≡ false)
    → slug is_alphanumeric false dash (strip_end cs) ≡ true
unfolding strip_end
strip_end-slug dash [] h k = ground arith
strip_end-slug dash (c ∷ []) h k = ground arith
strip_end-slug dash (c ∷ d ∷ cs) h k =
    ground
      (arith, strip_end-slug true (d ∷ cs), strip_end-slug false (d ∷ cs), strip_end-nonempty d cs)

map-small-slug :
    (dash : Bool) (cs : List ℕ)
    → slug is_alphanumeric false dash cs ≡ true
    → slug is_small false dash (map small cs) ≡ true
unfolding small is_alphanumeric
map-small-slug dash [] h = h
map-small-slug dash (c ∷ cs) h = ground (arith, map-small-slug true cs, map-small-slug false cs)

abbrev pub length : List ℕ → ℕ
length [] = 0
length (c ∷ cs) = suc (length cs)

length-take : (n : ℕ) (cs : List ℕ) → length (take n cs) ≤ n
length-take zero cs = omega arith
length-take (suc n) [] = omega arith
length-take (suc n) (c ∷ cs) = omega (arith, length-take n cs)

length-drop_spaces : (cs : List ℕ) → length (drop_spaces cs) ≤ length cs
length-drop_spaces [] = omega arith
length-drop_spaces (c ∷ cs) = ground (arith, length-drop_spaces cs)

length-trim_end : (cs : List ℕ) → length (trim_end cs) ≤ length cs
length-trim_end [] = omega arith
length-trim_end (c ∷ cs) = ground (arith, length-trim_end cs)

length-dashed : (run : Bool) (cs : List ℕ) → length (dashed run cs) ≤ length cs
unfolding dashed
length-dashed run [] = omega arith
length-dashed run (c ∷ cs) = ground (arith, length-dashed true cs, length-dashed false cs)

length-strip_start : (cs : List ℕ) → length (strip_start cs) ≤ length cs
unfolding strip_start
length-strip_start [] = omega arith
length-strip_start (c ∷ cs) = ground arith

length-strip_end : (cs : List ℕ) → length (strip_end cs) ≤ length cs
unfolding strip_end
length-strip_end [] = omega arith
length-strip_end (c ∷ []) = ground arith
length-strip_end (c ∷ d ∷ cs) = omega (arith, length-strip_end (d ∷ cs))

length-map : (f : ℕ → ℕ) (cs : List ℕ) → length (map f cs) ≡ length cs
length-map f [] = refl
length-map f (c ∷ cs) = ap suc (length-map f cs)

-- Whatever the text is, the name is a run of 1 to 50 small letters and digits of ASCII, with
-- single dashes only between them.
safe_name-slug :
    (text : List ℕ)
    → (slug is_small false true (safe_name text) ≡ true) × (length (safe_name text) ≤ 50)
unfolding safe_name
safe_name-slug text =
    let taken = take 50 text in
    let units = trim_end (drop_spaces taken) in
    let runs = dashed false units in
    let stripped = strip_end (strip_start runs) in
    elim (Bool-cases (is_nil stripped)) [
      | inl e ↦ rw e (refl, omega arith)
      | inr e ↦
          let open_slug : slug is_alphanumeric true true (strip_start runs) ≡ true =
            ap (slug is_alphanumeric true true) (strip_start-dashed units)
            ∙ dashed-slug true units in
          rw (e, length-map small stripped)
            (
              map-small-slug true stripped
                  (strip_end-slug true (strip_start runs) open_slug (inr e)),
              omega (
                arith,
                length-take 50 text,
                length-drop_spaces taken,
                length-trim_end (drop_spaces taken),
                length-dashed false units,
                length-strip_start runs,
                length-strip_end (strip_start runs),
              ),
            )
    ]
