-- ===== src/Text.antt =====
-- The JavaScript string methods that the program calls, over native texts. A text is a list of
-- code points here, where JavaScript has UTF-16 code units; every operation below treats a
-- surrogate pair and a code point alike.
use Prim.Native.Char.{code}
use Prim.Native.String.{[], ◌∷◌}
use go_grpc_microservices.Prelude.{
  ℕ, String, ◌≡◌, refl, Bool, true, false, Option, none, some, ◌&&◌, ◌||◌, leb, nat_eq,
  if◌then◌else◌, Bool-cases, inl, inr,
}

-- WhiteSpace and LineTerminator of ECMAScript, which `trim` removes.
unfoldable pub is_space : ℕ → Bool
is_space c =
    (leb 9 c && leb c 13)
    || nat_eq c 32
    || nat_eq c 160
    || nat_eq c 0x1680
    || (leb 0x2000 c && leb c 0x200a)
    || nat_eq c 0x2028
    || nat_eq c 0x2029
    || nat_eq c 0x202f
    || nat_eq c 0x205f
    || nat_eq c 0x3000
    || nat_eq c 0xfeff

abbrev pub is_empty : String → Bool
is_empty [] = true
is_empty (c ∷ s) = false

pub empty_text : (s : String) → is_empty s ≡ true → s ≡ []
empty_text [] e = refl
empty_text (c ∷ s) e = absurd cc

-- `!text`, for a text that may be missing
abbrev pub absent : Option String → Bool
absent none = true
absent (some s) = is_empty s

-- `s + t`
abbrev pub append : String → String → String
append [] t = t
append (c ∷ s) t = c ∷ append s t

-- Drops the longest prefix whose code points pass the test.
unfoldable pub drop_while : (ℕ → Bool) → String → String
drop_while p [] = []
drop_while p (c ∷ s) = let rest = drop_while p s in if p (code c) then rest else c ∷ s

unfoldable pub trim_end : String → String
unfolding is_space
trim_end [] = []
trim_end (c ∷ s) =
    let rest = trim_end s in if is_empty rest && is_space (code c) then [] else c ∷ rest

-- `s.trim()`
unfoldable pub trim : String → String
unfolding drop_while trim_end
trim s = trim_end (drop_while is_space s)

-- `s.replace(/^\/+/, "")`
unfoldable pub strip_slashes : String → String
unfolding drop_while
strip_slashes s = drop_while (λ c. nat_eq c b'/') s

-- The text does not begin with a code point that passes the test.
abbrev pub StartsWithout : (ℕ → Bool) → String → Type 0
StartsWithout p [] = Unit
StartsWithout p (c ∷ s) = p (code c) ≡ false

pub drop_while-StartsWithout : (p : ℕ → Bool) (s : String) → StartsWithout p (drop_while p s)
unfolding drop_while
drop_while-StartsWithout p [] = tt
drop_while-StartsWithout p (c ∷ s) = elim (Bool-cases (p (code c))) [
  | inl e ↦ rw e (drop_while-StartsWithout p s)
  | inr e ↦ rw e e
]

-- What is already free of the prefix stays whole.
pub drop_while_of_StartsWithout :
    (p : ℕ → Bool) (s : String) → StartsWithout p s → drop_while p s ≡ s
unfolding drop_while
drop_while_of_StartsWithout p [] h = refl
drop_while_of_StartsWithout p (c ∷ s) h = rw h

-- Trimming at the end shortens nothing at the start.
trim_end-StartsWithout :
    (p : ℕ → Bool) (s : String) → StartsWithout p s → StartsWithout p (trim_end s)
unfolding trim_end
trim_end-StartsWithout p [] h = tt
trim_end-StartsWithout p (c ∷ s) h =
    elim (Bool-cases (is_empty (trim_end s) && is_space (code c))) [
      | inl e ↦ rw e tt
      | inr e ↦ rw e h
    ]

trim_end_idem : (s : String) → trim_end (trim_end s) ≡ trim_end s
unfolding trim_end
trim_end_idem [] = refl
trim_end_idem (c ∷ s) = elim (Bool-cases (is_empty (trim_end s) && is_space (code c))) [
  | inl e ↦ rw e
  | inr e ↦ rw e (rw (trim_end_idem s) (rw e))
]

pub trim-StartsWithout : (s : String) → StartsWithout is_space (trim s)
unfolding trim
trim-StartsWithout s = trim_end-StartsWithout is_space _ (drop_while-StartsWithout is_space s)

pub trim_idem : (s : String) → trim (trim s) ≡ trim s
unfolding trim
trim_idem s =
    rw
      (drop_while_of_StartsWithout is_space (trim_end (drop_while is_space s))
        (trim_end-StartsWithout is_space _ (drop_while-StartsWithout is_space s)))
      (trim_end_idem (drop_while is_space s))

pub trim_of_is_empty : (s : String) → is_empty s ≡ true → is_empty (trim s) ≡ true
unfolding trim
trim_of_is_empty [] h = refl
trim_of_is_empty (c ∷ s) h = cc

trims : trim "  a b \t" ≡ "a b"
unfolding trim
trims = refl

strips : strip_slashes "//a/b" ≡ "a/b"
unfolding strip_slashes
strips = refl
