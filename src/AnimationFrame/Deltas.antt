-- ===== src/AnimationFrame/Deltas.antt =====
-- What the callback of the loop is called with (AnimationFrame).
use go_grpc_microservices.Prelude.{ℕ, ◌+◌, ◌≤◌, ◌≡◌, some, List, [], ◌∷◌, arith}
use go_grpc_microservices.AnimationFrame.{Frames, request_frame, animate}

-- The browser calls one frame after another, at these times.
abbrev pub play : List ℕ → Frames → Frames
play [] s = s
play (t ∷ ts) s = play ts (animate t s)

abbrev pub sum : List ℕ → ℕ
sum [] = 0
sum (x ∷ xs) = x + sum xs

abbrev pub last : ℕ → List ℕ → ℕ
last t [] = t
last t (u ∷ us) = last u us

-- Times that do not fall, from one on.
abbrev pub Ascending : ℕ → List ℕ → Type 0
Ascending t [] = Unit
Ascending t (u ∷ us) = (t ≤ u) × Ascending u us

last-le : (t : ℕ) (ts : List ℕ) → Ascending t ts → t ≤ last t ts
last-le t [] h = omega arith
last-le t (u ∷ us) h = omega (arith, last-le u us h.1)

-- No time is lost or counted twice: after frames at times that do not fall, the deltas that the
-- callback was called with add up to the time since the frame before them.
deltas_lem :
    (t : ℕ) (ts : List ℕ) (s : Frames)
    → s.previous_time ≡ some t
    → Ascending t ts
    → sum (play ts s).deltas + t ≡ sum s.deltas + last t ts
unfolding animate request_frame
deltas_lem t [] s p h = omega arith
deltas_lem t (u ∷ us) s p h = ground (arith, deltas_lem u us (animate u s), last-le u us h.1)
