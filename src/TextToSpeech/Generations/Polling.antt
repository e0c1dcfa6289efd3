-- ===== src/TextToSpeech/Generations/Polling.antt =====
-- When the page of a generation stops asking
-- (web/src/modules/text-to-speech/hooks/use-generations.ts).
use go_grpc_microservices.Prelude.{
  ◌≡◌, ◌≢◌, ◌⊎◌, inl, inr, refl, true, false, map, Option, none, some, List, [], ◌∷◌, ◌++◌,
  Bool-cases, ap,
}
use go_grpc_microservices.TextToSpeech.Generations.{
  GenerationDetail, is_active, after_answer, refetch_interval, poll,
}

-- The data is of a job that is under way.
abbrev IsUnderWay : Option GenerationDetail → Type 0
IsUnderWay none = ⊥
IsUnderWay (some d) = is_active d.status ≡ true

-- The data after some answers.
abbrev after_answers :
    Option GenerationDetail → List (Option GenerationDetail) → Option GenerationDetail
after_answers held [] = held
after_answers held (a ∷ rest) = after_answers (after_answer held a) rest

-- After every proper prefix of the answers, other than none of them, the job was under way.
abbrev KeptAsking : Option GenerationDetail → List (Option GenerationDetail) → Type 0
KeptAsking held [] = Unit
KeptAsking held (a ∷ []) = Unit
KeptAsking held (a ∷ b ∷ rest) =
    IsUnderWay (after_answer held a) × KeptAsking (after_answer held a) (b ∷ rest)

interval-cases :
    (d : Option GenerationDetail)
    → (IsUnderWay d × (refetch_interval d ≡ some 2000))
      ⊎ ((IsUnderWay d → ⊥) × (refetch_interval d ≡ none))
unfolding refetch_interval
interval-cases none = inr (λ h. h, refl)
interval-cases (some d) = elim (Bool-cases (is_active d.status)) [
  | inl e ↦ inl (e, rw e)
  | inr e ↦ inr (λ h. cc, rw e)
]

-- The answers that were asked for.
pub record Polled (held : Option GenerationDetail) (answers : List (Option GenerationDetail))
    (result : Option GenerationDetail × List (Option GenerationDetail)) : Type 0 where
  pub asked : List (Option GenerationDetail)
  pub begun : answers ≢ [] → asked ≢ []
  pub split : answers ≡ asked ++ result.1
  pub shown : result.0 ≡ after_answers held asked
  pub kept : KeptAsking held asked
  pub ended : (result.1 ≡ []) ⊎ (IsUnderWay result.0 → ⊥)

KeptAsking-cons :
    (held a : Option GenerationDetail) (asked : List (Option GenerationDetail))
    → IsUnderWay (after_answer held a)
    → KeptAsking (after_answer held a) asked
    → KeptAsking held (a ∷ asked)
KeptAsking-cons held a [] u k = tt
KeptAsking-cons held a (b ∷ rest) u k = (u, k)

-- The page asks once, and again exactly while the job is queued or in process: the answers that
-- it asked for are a first part of what the service would give, one at least if there is any,
-- after each of them but the last the job was under way, and it stopped there only if none are
-- left or the job is no longer under way; the data that it shows are of the last answer that was
-- not a failure.
poll_lem :
    (held : Option GenerationDetail) (answers : List (Option GenerationDetail))
    → Polled held answers (poll held answers)
unfolding poll
poll_lem held [] = record {
  asked = [];
  begun = λ h. h;
  split = refl;
  shown = refl;
  kept = tt;
  ended = inl refl;
}
poll_lem held (a ∷ rest) = elim (interval-cases (after_answer held a)) [
  | inl (u, e) ↦
      let p = poll_lem (after_answer held a) rest in
      rw (e, poll)
        (record {
          asked = a ∷ p.asked;
          begun = λ _ e. cc;
          split = ap (λ more. a ∷ more) p.split;
          shown = p.shown;
          kept = KeptAsking-cons held a p.asked u p.kept;
          ended = p.ended;
        })
  | inr (u, e) ↦
      rw (e, poll)
        (record {
          asked = a ∷ [];
          begun = λ _ e. cc;
          split = refl;
          shown = refl;
          kept = tt;
          ended = inr u;
        })
]

-- Answers of the service, each for a job that is under way.
abbrev pub AreUnderWay : List GenerationDetail → Type 0
AreUnderWay [] = Unit
AreUnderWay (d ∷ ds) = (is_active d.status ≡ true) × AreUnderWay ds

-- Polling terminates: once the service answers that the job is neither queued nor in process, after
-- any number of answers that it is, the page shows that answer and asks for no other.
pub poll_terminates :
    (held : Option GenerationDetail) (ds : List GenerationDetail) (d : GenerationDetail)
    (rest : List (Option GenerationDetail))
    → AreUnderWay ds
    → is_active d.status ≡ false
    → poll held (map some ds ++ some d ∷ rest) ≡ (some d, rest)
unfolding poll refetch_interval
poll_terminates held [] d rest h e = rw (e, poll) refl
poll_terminates held (x ∷ ds) d rest h e = rw (h.0, poll) (poll_terminates (some x) ds d rest h.1 e)

-- A page whose first request fails asks no more: without data there is no interval.
poll_failed_first : (rest : List (Option GenerationDetail)) → poll none (none ∷ rest) ≡ (none, rest)
unfolding poll refetch_interval
poll_failed_first rest = refl
