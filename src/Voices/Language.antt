-- ===== src/Voices/Language.antt =====
-- The language of a voice: what its card shows of it (`parseLanguage` of
-- web/src/modules/voices/components/voice-card.tsx), and what the form for a new voice offers
-- (`LANGUAGE_OPTIONS` and `LanguageCombobox` of voice-create-form.tsx). `toUpperCase`, the
-- browser's names of regions and the package locale-codes are parameters.
pub mod Flag
pub mod Picked
pub mod Shown
use Prim.Native.Char.{code}
use Prim.Native.String
use go_grpc_microservices.Prelude.{
  ℕ, ◌+◌, ◌-◌, ◌/◌, String, Bool, true, false, not, ◌&&◌, Option, none, some, List, [], ◌∷◌, ◌==◌,
  nat_eq, ltb, if◌then◌else◌,
}
use go_grpc_microservices.Async.{Settled, resolved, rejected}
use go_grpc_microservices.Text.{is_empty, absent}
use go_grpc_microservices.Voices.Mutations.{text_or}

-- `text.split("-")[0]`, and what follows the first dash, if there is one
unfoldable pub before_dash : String → String
before_dash String.[] = ""
before_dash (String.◌∷◌ c s) =
    let rest = before_dash s in if nat_eq (code c) b'-' then "" else String.◌∷◌ c rest

unfoldable pub after_dash : String → Option String
after_dash String.[] = none
after_dash (String.◌∷◌ c s) =
    let rest = after_dash s in if nat_eq (code c) b'-' then some s else rest

-- `const [, country] = locale.split("-")`, as a text that is empty if there is none
unfoldable pub country_of : String → String
unfolding before_dash after_dash
country_of locale = elim (after_dash locale) [ none ↦ "" | some rest ↦ before_dash rest ]

-- `character.charCodeAt(0)`: the first UTF-16 unit
unfoldable pub char_code_at_0 : ℕ → ℕ
char_code_at_0 c = if ltb c 0x10000 then c else 0xd800 + (c - 0x10000) / 0x400

-- The flag of a country that is in upper case, as its code points
unfoldable pub flag_of : String → List ℕ
unfolding char_code_at_0
flag_of String.[] = []
flag_of (String.◌∷◌ c s) = (0x1f1e6 + char_code_at_0 (code c) - 65) ∷ flag_of s

pub record ParsedLanguage : Type 0 where
  pub language : String
  pub flag : List ℕ
  pub region : String

module _ (upper : String → String) (region_name : String → Settled (Option String)) where
  -- `parseLanguage`; `region_name` is `regionNames.of`, which throws for what is no region code
  unfoldable pub parse_language : String → Settled ParsedLanguage
  unfolding before_dash country_of flag_of
  parse_language locale =
      let country = country_of locale in
      if is_empty country
      then resolved (record { language = locale; flag = []; region = upper locale })
      else elim (region_name country) [
        | rejected e ↦ rejected e
        | resolved name ↦ resolved (record {
          language = before_dash locale;
          flag = flag_of (upper country);
          region = elim name [ none ↦ country | some n ↦ n ];
        })
      ]

-- An entry of locale-codes
pub record Locale : Type 0 where
  pub tag : Option String
  pub name : Option String
  pub location : Option String

pub record LanguageOption : Type 0 where
  pub value : String
  pub label : String

-- `l.tag && l.tag.includes("-") && l.name`
unfoldable pub is_offered : Locale → Bool
unfolding after_dash
is_offered l =
    not (absent l.tag)
    && (elim (after_dash (text_or l.tag "")) [ none ↦ false | some rest ↦ true ])
    && not (absent l.name)

module _ (join : String → String → String) where
  -- `LANGUAGE_OPTIONS`; `join` is the label of a name with a location
  unfoldable pub option_of : Locale → LanguageOption
  option_of l = record {
    value = text_or l.tag "";
    label =
        if absent l.location
        then text_or l.name ""
        else join (text_or l.name "") (text_or l.location "");
  }

  unfoldable pub language_options : List Locale → List LanguageOption
  unfolding is_offered option_of
  language_options [] = []
  language_options (l ∷ ls) =
      let rest = language_options ls in if is_offered l then option_of l ∷ rest else rest

-- `LANGUAGE_OPTIONS.find((l) => l.value === value)?.label ?? ""`
unfoldable pub selected_label : String → List LanguageOption → String
selected_label value [] = ""
selected_label value (o ∷ os) =
    let rest = selected_label value os in if o.value == value then o.label else rest
