-- ===== src/Recorder/Refs.antt =====
-- A ref of the recorder (web/src/hooks/use-audio-recorder.ts) that names a thing which has to be
-- released, a stream, a timer and so on, with all things of its kind that are still live.
use go_grpc_microservices.Prelude.{
  ℕ, ◌≡◌, Option, none, some, List, [], ◌∷◌, nat_eq, if◌then◌else◌, arith,
}

pub record Slot : Type 0 where
  pub held : Option ℕ
  pub live : List ℕ

abbrev pub empty : Slot
empty = record { held = none; live = [] }

abbrev pub drop_id : ℕ → List ℕ → List ℕ
drop_id id [] = []
drop_id id (x ∷ xs) = let rest = drop_id id xs in if nat_eq x id then rest else x ∷ rest

-- `ref.current = …`, for a new thing
unfoldable pub take : ℕ → Slot → Slot
take id s = record { held = some id; live = id ∷ s.live }

-- `if (ref.current) { release it; ref.current = null }`
unfoldable pub release : Slot → Slot
release s = elim s.held [ none ↦ s | some id ↦ record { held = none; live = drop_id id s.live } ]

-- What is live is what the ref names.
abbrev pub IsTidy : Slot → Type 0
IsTidy s = s.live ≡ (elim s.held [ none ↦ [] | some id ↦ id ∷ [] ])

pub take-IsTidy : (id : ℕ) (s : Slot) → s.held ≡ none → IsTidy s → IsTidy (take id s)
unfolding take
take-IsTidy id s free h = ground arith

-- What is tidy is empty once it is released.
pub release-empty : (s : Slot) → IsTidy s → release s ≡ empty
unfolding release
release-empty s h = ground arith
