-- ===== src/TextToSpeech/Download.antt =====
-- The name of the file that a generation is downloaded as: `handleDownload` of
-- web/src/modules/text-to-speech/components/voice-preview-panel.tsx. A text is the list of its
-- UTF-16 code units here, which `slice` counts.
pub mod FileName
use go_grpc_microservices.Prelude.{
  ℕ, zero, suc, ◌+◌, Bool, true, false, not, ◌&&◌, ◌||◌, List, [], ◌∷◌, map, nat_eq, leb,
  if◌then◌else◌,
}
use go_grpc_microservices.Units.{is_nil, drop_spaces, trim_end}

-- `slice(0, n)`
abbrev pub take : ℕ → List ℕ → List ℕ
take zero cs = []
take (suc n) [] = []
take (suc n) (c ∷ cs) = c ∷ take n cs

-- `[a-zA-Z0-9]`
unfoldable pub is_alphanumeric : ℕ → Bool
is_alphanumeric c =
    (leb b'0' c && leb c b'9') || (leb b'A' c && leb c b'Z') || (leb b'a' c && leb c b'z')

-- `replace(/[^a-zA-Z0-9]+/g, "-")`; the `Bool` says that a run of other units is going on.
unfoldable pub dashed : Bool → List ℕ → List ℕ
dashed run [] = []
dashed run (c ∷ cs) =
    let plain = c ∷ dashed false cs in
    let rest = dashed true cs in
    if is_alphanumeric c then plain else if run then rest else b'-' ∷ rest

-- `replace(/^-|-$/g, "")`
unfoldable pub strip_start : List ℕ → List ℕ
strip_start [] = []
strip_start (c ∷ cs) = if nat_eq c b'-' then cs else c ∷ cs

unfoldable pub strip_end : List ℕ → List ℕ
strip_end [] = []
strip_end (c ∷ []) = if nat_eq c b'-' then [] else c ∷ []
strip_end (c ∷ d ∷ cs) = c ∷ strip_end (d ∷ cs)

-- `toLowerCase`, of ASCII
unfoldable pub small : ℕ → ℕ
small c = if leb b'A' c && leb c b'Z' then c + 32 else c

abbrev pub speech : List ℕ
speech = b's' ∷ b'p' ∷ b'e' ∷ b'e' ∷ b'c' ∷ b'h' ∷ []

-- `safeName`
unfoldable pub safe_name : List ℕ → List ℕ
safe_name text =
    let stripped = strip_end (strip_start (dashed false (trim_end (drop_spaces (take 50 text))))) in
    if is_nil stripped then speech else map small stripped
