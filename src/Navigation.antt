-- ===== src/Navigation.antt =====
-- The menu of the dashboard, web/src/modules/dashboard/components/dashboard-sidebar.tsx: which
-- entry it marks as the active one. The icons are left out.
use Prim.Native.Char.{code}
use go_grpc_microservices.Prelude.{
  ℕ, suc, ◌+◌, ◌≤◌, ◌==◌, String, Bool, true, false, Option, none, some, List, [], ◌∷◌, nat_eq,
  arith, if◌then◌else◌,
}
use go_grpc_microservices.Text.{is_empty}

pub record MenuItem : Type 0 where
  pub title : String
  pub url : Option String
  -- `onClick` opens the dialog of a new voice
  pub opens_dialog : Bool

abbrev entry : String → Option String → MenuItem
entry title url = record { title = title; url = url; opens_dialog = false }

abbrev main_menu_items : List MenuItem
main_menu_items =
    entry "Dashboard" (some "/dashboard")
    ∷ (entry "Explore voices" (some "/voices")
        ∷ (entry "Text to speech" (some "/text-to-speech")
            ∷ (record { title = "Voice cloning"; url = none; opens_dialog = true } ∷ [])))

abbrev others_menu_items : List MenuItem
others_menu_items =
    entry "Settings" none
    ∷ (entry "Help and support" (some "mailto:business@codewithantonio.com") ∷ [])

-- `text.startsWith(prefix)`
abbrev starts_with : String → String → Bool
starts_with String.[] text = true
starts_with (String.◌∷◌ c prefix) String.[] = false
starts_with (String.◌∷◌ c prefix) (String.◌∷◌ d text) =
    let rest = starts_with prefix text in if nat_eq (code c) (code d) then rest else false

-- `isActive` of an entry
unfoldable pub is_active : String → MenuItem → Bool
is_active pathname item = elim item.url [
  | none ↦ false
  | some url ↦
      if is_empty url
      then false
      else if url == "/"
      then pathname == "/"
      else starts_with url pathname
]

abbrev count_active : String → List MenuItem → ℕ
count_active pathname [] = 0
count_active pathname (i ∷ is) =
    let rest = count_active pathname is in if is_active pathname i then suc rest else rest

-- On no page is more than one entry of the two sections marked.
active-le-one :
    (pathname : String)
    → count_active pathname main_menu_items + count_active pathname others_menu_items ≤ 1
unfolding is_active
active-le-one String.[] = omega arith
active-le-one (String.◌∷◌ c String.[]) = ground arith
active-le-one (String.◌∷◌ c (String.◌∷◌ d path)) = ground arith
