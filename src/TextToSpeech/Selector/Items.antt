-- ===== src/TextToSpeech/Selector/Items.antt =====
-- What can be selected (TextToSpeech.Selector).
use mathlib.Core.List.{append-nil}
use go_grpc_microservices.Prelude.{
  ◌≡◌, inl, inr, refl, ap, sym, ◌∙◌, String, Bool, true, false, ◌&&◌, ◌||◌, Option, none, some,
  List, [], ◌∷◌, ◌++◌, map, Bool-cases, arith, if◌then◌else◌,
}
use go_grpc_microservices.Toasts.{Toast}
use go_grpc_microservices.TextToSpeech.Form.{
  TtsFormValues, Client, Reply, GenerateSpeechInput, find_voice, is_valid, submit, try_generate,
}
use go_grpc_microservices.TextToSpeech.Selector.{
  ListedVoice, use_tts_voices, or_nothing, find_listed, has_missing_selected_voice, Entry, missing,
  current_entry, listed_entry, Part, group, separator, select_content, button_label, part_if,
  is_nonempty,
}

abbrev values_of : List Entry → List String
values_of es = map (λ e. e.value) es

-- The values that can be selected, from top to bottom.
abbrev pub values : List Part → List String
values [] = []
values (group label es ∷ ps) = values_of es ++ values ps
values (separator ∷ ps) = values ps

abbrev pub ids : List ListedVoice → List String
ids vs = map (λ v. v.item.id) vs

-- Groups, with one separator between each two of them; `true` after a group.
abbrev AreParted : Bool → List Part → Type 0
AreParted after [] = Unit
AreParted true (separator ∷ group label es ∷ ps) = AreParted true ps
AreParted false (group label es ∷ ps) = AreParted true ps
AreParted _ _ = ⊥

values_of_listed : (vs : List ListedVoice) → values_of (map listed_entry vs) ≡ ids vs
unfolding listed_entry
values_of_listed [] = refl
values_of_listed (v ∷ vs) = ap (λ rest. v.item.id ∷ rest) (values_of_listed vs)

ids_append : (xs ys : List ListedVoice) → ids (xs ++ ys) ≡ ids xs ++ ids ys
ids_append [] ys = refl
ids_append (x ∷ xs) ys = ap (λ rest. x.item.id ∷ rest) (ids_append xs ys)

values_of_group : (vs : List ListedVoice) → values_of (map listed_entry vs) ++ [] ≡ ids vs
values_of_group vs = append-nil (values_of (map listed_entry vs)) ∙ values_of_listed vs

-- The groups of the team's and the built-in voices.
abbrev voice_groups : List ListedVoice → List ListedVoice → List Part
voice_groups c s =
    part_if (is_nonempty c) (group "Team Voices" (map listed_entry c))
    ++ (part_if (is_nonempty c && is_nonempty s) separator
        ++ part_if (is_nonempty s) (group "Built-in Voices" (map listed_entry s)))

voice_groups_lem :
    (c s : List ListedVoice)
    → AreParted false (voice_groups c s) × (values (voice_groups c s) ≡ ids (c ++ s))
voice_groups_lem [] [] = (tt, refl)
voice_groups_lem [] (v ∷ vs) = (tt, values_of_group (v ∷ vs))
voice_groups_lem (v ∷ vs) [] = (
  tt,
  values_of_group (v ∷ vs) ∙ (sym (append-nil (ids (v ∷ vs))) ∙ sym (ids_append (v ∷ vs) [])),
)
voice_groups_lem (v ∷ vs) (w ∷ ws) = (
  tt,
  ap (λ xs. xs ++ (values_of (map listed_entry (w ∷ ws)) ++ [])) (values_of_listed (v ∷ vs))
      ∙ (ap (λ xs. ids (v ∷ vs) ++ xs) (values_of_group (w ∷ ws))
          ∙ sym (ids_append (v ∷ vs) (w ∷ ws))),
)

with_missing :
    (c s : List ListedVoice) (e : Entry)
    → let ps =
        group "Selected Voice" (e ∷ [])
        ∷ (part_if (is_nonempty c || is_nonempty s) separator ++ voice_groups c s) in
      AreParted false ps × (values ps ≡ e.value ∷ ids (c ++ s))
with_missing [] [] e = (tt, refl)
with_missing [] (w ∷ ws) e = (tt, ap (λ xs. e.value ∷ xs) (voice_groups_lem [] (w ∷ ws)).1)
with_missing (v ∷ vs) [] e = (tt, ap (λ xs. e.value ∷ xs) (voice_groups_lem (v ∷ vs) []).1)
with_missing (v ∷ vs) (w ∷ ws) e =
    (tt, ap (λ xs. e.value ∷ xs) (voice_groups_lem (v ∷ vs) (w ∷ ws)).1)

current_missing :
    (voice_id : String) (voices : List ListedVoice)
    → has_missing_selected_voice voice_id voices ≡ true
    → current_entry voice_id voices ≡ some (missing voice_id)
unfolding has_missing_selected_voice current_entry
current_missing voice_id voices h = ground arith

-- Whatever the queries brought so far, every voice that is there can be selected, the team's before
-- the built-in ones, in their order, and before them just the selected one if it is none of them;
-- and there is a separator between each two groups and nowhere else.
content_lem :
    (voice_id : String) (custom system : Option (List ListedVoice))
    → let vs = use_tts_voices custom system in
      let content = select_content voice_id vs in
      AreParted false content
      × (values content ≡ (
          if has_missing_selected_voice voice_id vs.all_voices
          then voice_id ∷ ids vs.all_voices
          else ids vs.all_voices))
unfolding select_content use_tts_voices
content_lem voice_id custom system =
    let c = or_nothing custom in
    let s = or_nothing system in
    elim (Bool-cases (has_missing_selected_voice voice_id (c ++ s))) [
      | inl e ↦ rw (e, current_missing voice_id (c ++ s) e) (with_missing c s (missing voice_id))
      | inr e ↦ rw e (voice_groups_lem c s)
    ]

-- `find` over the voices that the form is submitted with.
find_listed-item :
    (id : String) (vs : List ListedVoice)
    → find_listed id vs ≡ none
    → find_voice id (map (λ v. v.item) vs) ≡ none
find_listed-item id [] h = refl
find_listed-item id (v ∷ vs) h = ground (arith, find_listed-item id vs)

-- On a small screen a selected voice that is gone looks as if another were selected: while the
-- selector says that the voice is unavailable, its button has the name of the first voice; and
-- submitting the form, which is valid, only shows an error.
gone_voice_misleads :
    (lower : String → String) (playback : String → Reply) (generate : GenerateSpeechInput → Reply)
    (token : Option String) (form : TtsFormValues) (v : ListedVoice) (vs : List ListedVoice)
    (s : Client)
    → is_valid form ≡ true
    → find_listed form.voice_id (v ∷ vs) ≡ none
    → (button_label form.voice_id (v ∷ vs) ≡ v.item.name)
      × (current_entry form.voice_id (v ∷ vs) ≡ some (missing form.voice_id))
      × (submit lower playback generate token (map (λ w. w.item) (v ∷ vs)) form s
          ≡ record s { toasts = Toast.error "Please select a valid voice" ∷ s.toasts })
unfolding button_label current_entry has_missing_selected_voice submit try_generate is_valid
gone_voice_misleads lower playback generate token form v vs s ok gone =
    (ground arith, ground arith, ground (arith, find_listed-item form.voice_id (v ∷ vs) gone))
