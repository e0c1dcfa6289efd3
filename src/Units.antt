-- ===== src/Units.antt =====
-- Texts as lists of their UTF-16 code units, for the code that counts them or takes one of them.
use go_grpc_microservices.Prelude.{ℕ, Bool, true, false, ◌&&◌, List, [], ◌∷◌, if◌then◌else◌}
use go_grpc_microservices.Text.{is_space}

abbrev pub is_nil : List ℕ → Bool
is_nil [] = true
is_nil (c ∷ cs) = false

-- The two halves of `trim()`
abbrev pub drop_spaces : List ℕ → List ℕ
drop_spaces [] = []
drop_spaces (c ∷ cs) = let rest = drop_spaces cs in if is_space c then rest else c ∷ cs

abbrev pub trim_end : List ℕ → List ℕ
trim_end [] = []
trim_end (c ∷ cs) = let rest = trim_end cs in if is_nil rest && is_space c then [] else c ∷ rest
