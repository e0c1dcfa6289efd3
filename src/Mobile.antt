-- ===== src/Mobile.antt =====
-- Whether the screen is small: `useIsMobile` of web/src/hooks/use-mobile.ts, with the window and
-- its media query, which calls its listeners when it begins or ceases to match, as documented.
-- Widths are in whole pixels.
use go_grpc_microservices.Prelude.{
  ℕ, suc, ◌-◌, ◌≡◌, refl, Bool, true, false, not, ◌||◌, Option, none, some, List, [], ◌∷◌, ltb, leb,
  arith, if◌then◌else◌,
}

-- `MOBILE_BREAKPOINT`
abbrev mobile_breakpoint : ℕ
mobile_breakpoint = 768

pub record Screen : Type 0 where
  -- `window.innerWidth`
  pub width : ℕ
  -- the state of the hook
  pub state : Option Bool
  -- how many listeners the media query has
  pub listeners : ℕ

-- The media query
abbrev matches : ℕ → Bool
matches width = leb width (mobile_breakpoint - 1)

-- `onChange`
on_change : Screen → Screen
on_change s = record s { state = some (ltb s.width mobile_breakpoint) }

-- The effect
watch : Screen → Screen
unfolding on_change
watch s = on_change (record s { listeners = suc s.listeners })

-- Its cleanup
unwatch : Screen → Screen
unwatch s = record s { listeners = s.listeners - 1 }

abbrev same : Bool → Bool → Bool
same true b = b
same false b = not b

-- The window gets another width.
resize : ℕ → Screen → Screen
unfolding on_change
resize width s =
    let t = record s { width = width } in
    if same (matches s.width) (matches width) || leb s.listeners 0 then t else on_change t

-- What the hook returns: `!!isMobile`
unfoldable pub is_mobile : Screen → Bool
is_mobile s = elim s.state [ none ↦ false | some b ↦ b ]

pub data Event : Type 0 where
  mounted unmounted : Event
  resized : ℕ → Event

unfoldable pub step : Event → Screen → Screen
unfolding watch unwatch resize
step mounted s = watch s
step unmounted s = unwatch s
step (resized width) s = resize width s

abbrev pub run : List Event → Screen → Screen
run [] s = s
run (e ∷ es) s = run es (step e s)

-- The component is mounted and unmounted in turn, while the window is resized.
pub data Life : Bool → List Event → Bool → Type 0 where
  end : {b : Bool} → Life b [] b
  shown : {es : List Event} {b : Bool} → Life true es b → Life false (mounted ∷ es) b
  gone : {es : List Event} {b : Bool} → Life false es b → Life true (unmounted ∷ es) b
  changed : {es : List Event} {a b : Bool} (width : ℕ) → Life a es b → Life a (resized width ∷ es) b

-- While mounted, one listener, and the state of the width that the window has; else no listener.
abbrev pub IsCurrent : Bool → Screen → Type 0
IsCurrent true s = (s.listeners ≡ 1) × (s.state ≡ some (ltb s.width 768))
IsCurrent false s = s.listeners ≡ 0

resize-IsCurrent :
    (b : Bool) (width : ℕ) (s : Screen) → IsCurrent b s → IsCurrent b (resize width s)
unfolding resize on_change
resize-IsCurrent true width s h = (ground arith, ground arith)
resize-IsCurrent false width s h = ground arith

-- Whenever the component is mounted and unmounted and the window resized, in whatever order: while
-- it is mounted, the hook has one listener, and its state is whether the window is now narrower
-- than 768 pixels, although the listener is called only when the media query begins or ceases to
-- match; and whenever it is not mounted, no listener is left behind.
pub run-IsCurrent :
    {a b : Bool} {es : List Event} (s : Screen)
    → Life a es b
    → IsCurrent a s
    → IsCurrent b (run es s)
unfolding step watch unwatch on_change
run-IsCurrent s end h = h
run-IsCurrent s (shown l) h = run-IsCurrent (watch s) l (ground arith, refl)
run-IsCurrent s (gone l) h = run-IsCurrent (unwatch s) l (ground arith)
run-IsCurrent s (changed {a = a} width l) h =
    run-IsCurrent (resize width s) l (resize-IsCurrent a width s h)
