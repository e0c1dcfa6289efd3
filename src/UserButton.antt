-- ===== src/UserButton.antt =====
-- The initials of a user, `getInitials` of web/src/components/user-button.tsx. A text is the list of
-- its UTF-16 code units; `toUpperCase` of one is a parameter.
use go_grpc_microservices.Prelude.{
  ℕ, ◌≡◌, refl, Bool, true, false, ◌&&◌, Option, none, some, List, [], ◌∷◌, ◌++◌, All, Bool-cases,
  inl, inr, if◌then◌else◌,
}
use go_grpc_microservices.Text.{is_space}
use go_grpc_microservices.Units.{is_nil, drop_spaces, trim_end}

abbrev begins_with_space : List ℕ → Bool
begins_with_space [] = false
begins_with_space (c ∷ cs) = is_space c

abbrev before_first : ℕ → List (List ℕ) → List (List ℕ)
before_first c [] = (c ∷ []) ∷ []
before_first c (w ∷ ws) = (c ∷ w) ∷ ws

-- `split(/\s+/)`: a run of blanks is one separator
split_words : List ℕ → List (List ℕ)
unfolding is_space
split_words [] = [] ∷ []
split_words (c ∷ cs) =
    let rest = split_words cs in
    if is_space c then (if begins_with_space cs then rest else [] ∷ rest) else before_first c rest

abbrev take_2 : List (List ℕ) → List (List ℕ)
take_2 [] = []
take_2 (v ∷ []) = v ∷ []
take_2 (v ∷ w ∷ ws) = v ∷ w ∷ []

abbrev or_u : List ℕ → List ℕ
or_u [] = b'U' ∷ []
or_u (c ∷ cs) = c ∷ cs

module _ (to_upper_case : ℕ → List ℕ) where
  -- `p[0]?.toUpperCase() ?? ""`
  abbrev initial : List ℕ → List ℕ
  initial [] = []
  initial (c ∷ cs) = to_upper_case c

  abbrev initials : List (List ℕ) → List ℕ
  initials [] = []
  initials (w ∷ ws) = initial w ++ initials ws

  -- `getInitials`
  get_initials : Option (List ℕ) → List ℕ
  unfolding split_words
  get_initials none = b'U' ∷ []
  get_initials (some name) =
      if is_nil name
      then b'U' ∷ []
      else or_u (initials (take_2 (split_words (trim_end (drop_spaces name)))))

split_word :
    (w : List ℕ) (rest : List ℕ) (x : List ℕ) (xs : List (List ℕ))
    → All (λ c. is_space c ≡ false) w
    → split_words rest ≡ x ∷ xs
    → split_words (w ++ rest) ≡ (w ++ x) ∷ xs
unfolding split_words
split_word [] rest x xs h e = e
split_word (c ∷ cs) rest x xs h e = rw (h.0, split_word cs rest x xs h.1 e) refl

trim_end-word : (w : List ℕ) → All (λ c. is_space c ≡ false) w → trim_end w ≡ w
trim_end-word [] h = refl
trim_end-word (c ∷ cs) h = rw (trim_end-word cs h.1, h.0) (kept (is_nil cs))
  where
    kept : (b : Bool) → (if b && false then [] else c ∷ cs) ≡ c ∷ cs
    kept true = refl
    kept false = refl

is_nil-append : (xs w : List ℕ) → is_nil w ≡ false → is_nil (xs ++ w) ≡ false
is_nil-append [] w h = h
is_nil-append (x ∷ xs) w h = refl

trim_end-append : (xs w : List ℕ) → is_nil w ≡ false → trim_end w ≡ w → trim_end (xs ++ w) ≡ xs ++ w
trim_end-append [] w h e = e
trim_end-append (x ∷ xs) w h e = rw (trim_end-append xs w h e, is_nil-append xs w h) refl

one_word : (w : List ℕ) → All (λ x. is_space x ≡ false) w → split_words w ≡ w ∷ []
unfolding split_words
one_word [] h = refl
one_word (c ∷ cs) h = rw (h.0, one_word cs h.1) refl

-- After a blank another word begins.
second_word :
    (d : ℕ) (ds : List ℕ)
    → All (λ x. is_space x ≡ false) (d ∷ ds)
    → split_words (b' ' ∷ d ∷ ds) ≡ [] ∷ (d ∷ ds) ∷ []
unfolding split_words is_space
second_word d ds k = rw (k.0, one_word ds k.1) refl

-- The initials of a name of two words are those of the words; if they have none, a "U" is shown.
get_initials_of_two :
    (to_upper_case : ℕ → List ℕ) (c d : ℕ) (cs ds : List ℕ)
    → All (λ x. is_space x ≡ false) (c ∷ cs)
    → All (λ x. is_space x ≡ false) (d ∷ ds)
    → get_initials to_upper_case (some ((c ∷ cs) ++ b' ' ∷ d ∷ ds))
      ≡ or_u (to_upper_case c ++ (to_upper_case d ++ []))
unfolding get_initials
get_initials_of_two to_upper_case c d cs ds h k =
    let ends =
      trim_end-append (c ∷ cs) (b' ' ∷ d ∷ ds) refl
        (trim_end-append (b' ' ∷ []) (d ∷ ds) refl (trim_end-word (d ∷ ds) k)) in
    let words = split_word (c ∷ cs) (b' ' ∷ d ∷ ds) [] ((d ∷ ds) ∷ []) h (second_word d ds k) in
    rw h.0 (rw ends (rw words refl))

-- No user is without initials.
get_initials_shown :
    (to_upper_case : ℕ → List ℕ) (name : Option (List ℕ))
    → is_nil (get_initials to_upper_case name) ≡ false
unfolding get_initials
get_initials_shown to_upper_case none = refl
get_initials_shown to_upper_case (some name) = elim (Bool-cases (is_nil name)) [
  | inl e ↦ rw e refl
  | inr e ↦
      rw e
        (or_u_shown (initials to_upper_case (take_2 (split_words (trim_end (drop_spaces name))))))
]
  where
    or_u_shown : (s : List ℕ) → is_nil (or_u s) ≡ false
    or_u_shown [] = refl
    or_u_shown (c ∷ cs) = refl
