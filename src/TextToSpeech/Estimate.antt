-- ===== src/TextToSpeech/Estimate.antt =====
-- What the two panels for a text show below it:
-- web/src/modules/text-to-speech/components/text-input-panel.tsx and generate-button.tsx, and
-- web/src/modules/dashboard/components/text-input-panel.tsx, with
-- web/src/modules/text-to-speech/data/constants.ts. A text is the list of its UTF-16 code units, as
-- its length counts them, and money is in ten-thousandths of a dollar, which `toFixed(4)` shows.
use go_grpc_microservices.Prelude.{
  ℕ, suc, ◌+◌, ◌-◌, ◌*◌, ◌/◌, ◌%◌, ◌≡◌, ◌<◌, ◌∙◌, Bool, true, false, not, ◌||◌, Option, none, some,
  List, [], ◌∷◌, ◌++◌, ltb, nat_eq, arith, if◌then◌else◌,
}
use go_grpc_microservices.Format.{decimal}
use go_grpc_microservices.Format.Reading.{read-decimal}
use go_grpc_microservices.TextToSpeech.Generations.{Status, completed}

-- `TEXT_MAX_LENGTH`
abbrev text_max_length : ℕ
text_max_length = 5000

-- `COST_PER_UNIT`
abbrev cost_per_unit : ℕ
cost_per_unit = 3

abbrev pub length {ℓ} : {A : Type ℓ} → List A → ℕ
length [] = 0
length (x ∷ xs) = suc (length xs)

-- `toFixed(4)`
fixed_4 : ℕ → List ℕ
unfolding decimal
fixed_4 n =
    decimal (n / 10000)
    ++ b'.'
      ∷ (b'0' + n / 1000 % 10)
      ∷ (b'0' + n / 100 % 10)
      ∷ (b'0' + n / 10 % 10)
      ∷ (b'0' + n % 10)
      ∷ []

-- `(text.length * COST_PER_UNIT).toFixed(4)`: the product of doubles is nearer to the exact cost
-- than a twenty-thousandth of a dollar
estimated_cost : List ℕ → List ℕ
unfolding fixed_4
estimated_cost text = fixed_4 (length text * cost_per_unit)

-- The badge of the dashboard: "Start typing to estimate" is `none`
unfoldable pub dashboard_estimate : List ℕ → Option (List ℕ)
unfolding estimated_cost
dashboard_estimate text = if nat_eq (length text) 0 then none else some (b'$' ∷ estimated_cost text)

-- What the panel of the form reads: the text, the states of the form, and the status of the
-- generation that the page is of.
pub record Panel : Type 0 where
  pub text : List ℕ
  pub is_submitting : Bool
  pub is_valid : Bool
  pub generation : Option Status

-- `isGenerationCompleted`
is_generation_completed : Panel → Bool
is_generation_completed p = elim p.generation [
  | none ↦ false
  | some completed ↦ true
  | some _ ↦ false
]

-- A `GenerateButton`
pub record GenerateButton : Type 0 where
  pub disabled : Bool
  pub is_generating : Bool

-- The button of the small layout
unfoldable pub mobile_button : Panel → GenerateButton
unfolding is_generation_completed
mobile_button p = record {
  disabled = p.is_submitting || is_generation_completed p;
  is_generating = p.is_submitting;
}

-- The bar of the wide layout: the cost, the length and the button, or suggestions of a text
pub data ActionBar : Type 0 where
  estimate : List ℕ → ℕ → GenerateButton → ActionBar
  prompt_suggestions : ActionBar

unfoldable pub desktop_bar : Panel → ActionBar
unfolding is_generation_completed estimated_cost
desktop_bar p =
    if ltb 0 (length p.text)
    then estimate (b'$' ∷ estimated_cost p.text) (length p.text) (record {
      disabled = p.is_submitting || not p.is_valid || is_generation_completed p;
      is_generating = p.is_submitting;
    })
    else prompt_suggestions

-- Reading an amount in ten-thousandths: the point is passed over.
abbrev read_amount : ℕ → List ℕ → ℕ
read_amount n [] = n
read_amount n (c ∷ cs) =
    let skip = read_amount n cs in
    let digit = read_amount (n * 10 + (c - b'0')) cs in if nat_eq c b'.' then skip else digit

read_amount_digit :
    (n d : ℕ) (out : List ℕ)
    → d < 10
    → read_amount n ((b'0' + d) ∷ out) ≡ read_amount (n * 10 + d) out
read_amount_digit n d out h = ground arith

read_four :
    (n a b c d : ℕ)
    → a < 10
    → b < 10
    → c < 10
    → d < 10
    → read_amount n ((b'0' + a) ∷ (b'0' + b) ∷ (b'0' + c) ∷ (b'0' + d) ∷ [])
      ≡ (((n * 10 + a) * 10 + b) * 10 + c) * 10 + d
read_four n a b c d ha hb hc hd = ground arith

read_fixed_4 : (n : ℕ) → read_amount 0 (fixed_4 n) ≡ n
unfolding fixed_4
read_fixed_4 n =
    read-decimal read_amount read_amount_digit (n / 10000) _
    ∙ (read_four (n / 10000) (n / 1000 % 10) (n / 100 % 10) (n / 10 % 10) (n % 10) (omega arith)
          (omega arith) (omega arith) (omega arith)
        ∙ omega arith)

-- The cost that is shown for a text, on both panels, is read back as the cost of its characters.
estimated_cost-read :
    (text : List ℕ) → read_amount 0 (estimated_cost text) ≡ length text * cost_per_unit
unfolding estimated_cost
estimated_cost-read text = read_fixed_4 (length text * cost_per_unit)
