-- ===== src/Voices/Language/Picked.antt =====
-- A language that is picked in the form for a new voice: `LanguageCombobox` of
-- web/src/modules/voices/components/voice-create-form.tsx (Voices.Language, Voices.CreateForm).
use go_grpc_microservices.Prelude.{
  ◌≡◌, inl, inr, refl, String, Bool, true, false, List, [], ◌∷◌, ◌==◌, eq_refl, All, In, All-In,
  Bool-cases, arith, if◌then◌else◌,
}
use go_grpc_microservices.Text.{is_empty}
use go_grpc_microservices.Voices.CreateForm.{FormValues}
use go_grpc_microservices.Voices.Language.{
  Locale, LanguageOption, is_offered, option_of, language_options, selected_label,
}

pub record LanguageCombobox : Type 0 where
  pub is_open : Bool
  pub values : FormValues

-- `onSelect` of an item, whose `onChange` is the field's
on_select : LanguageOption → LanguageCombobox → LanguageCombobox
on_select lang s = record { is_open = false; values = record s.values { language = lang.value } }

-- What the button shows
button_text : List LanguageOption → LanguageCombobox → String
unfolding selected_label
button_text options s =
    if is_empty s.values.language
    then "Select language..."
    else selected_label s.values.language options

-- The value is that of no option of the list.
abbrev IsNew : String → List LanguageOption → Type 0
IsNew value os = All (λ o. (value == o.value) ≡ false) os

abbrev AreDistinct : List LanguageOption → Type 0
AreDistinct [] = Unit
AreDistinct (o ∷ os) = IsNew o.value os × AreDistinct os

selected_label_of_In :
    (options : List LanguageOption) (o : LanguageOption)
    → AreDistinct options
    → In o options
    → selected_label o.value options ≡ o.label
unfolding selected_label
selected_label_of_In [] o d i = absurd i
selected_label_of_In (p ∷ os) o d (inl e) = rw (e, eq_refl p.value) refl
selected_label_of_In (p ∷ os) o d (inr i) =
    rw (All-In (λ q. (p.value == q.value) ≡ false) os d.0 i) (selected_label_of_In os o d.1 i)

module _ (join : String → String → String) where
  option_of_value : (l : Locale) → is_offered l ≡ true → is_empty (option_of join l).value ≡ false
  unfolding is_offered option_of
  option_of_value l h = ground arith

  options_value :
      (locales : List Locale) → All (λ o. is_empty o.value ≡ false) (language_options join locales)
  unfolding language_options
  options_value [] = tt
  options_value (l ∷ ls) = elim (Bool-cases (is_offered l)) [
    | inl e ↦ rw e (option_of_value l e, options_value ls)
    | inr e ↦ rw e (options_value ls)
  ]

  -- Picking any of the languages that are offered closes the list, sets it and nothing else, and the
  -- button shows its label, provided that no two of them have the same tag.
  picked_lem :
      (locales : List Locale) (o : LanguageOption) (s : LanguageCombobox)
      → AreDistinct (language_options join locales)
      → In o (language_options join locales)
      → let t = on_select o s in
        (t.is_open ≡ false)
        × (t.values ≡ record s.values { language = o.value })
        × (button_text (language_options join locales) t ≡ o.label)
  unfolding on_select button_text
  picked_lem locales o s d i = (
    refl,
    refl,
    rw
        (All-In (λ p. is_empty p.value ≡ false) (language_options join locales)
          (options_value locales) i)
        (selected_label_of_In (language_options join locales) o d i),
  )
