-- ===== src/Console/Theme.antt =====
-- console/src/theme.ts and the toggle of console/src/router.tsx.
pub mod Stored
use agentic_warden.Prelude.{
  ℕ, zero, suc, ◌+◌, ◌-◌, ◌*◌, ◌≤◌, ◌<◌, Bool, true, false, not, ◌&&◌, ◌||◌, String, Option, none,
  some, List, [], ◌∷◌, ◌++◌, map, reverse, flat_map, append_assoc, append-nil, Text, units,
  text_beq, text_eq, nat_eq, Equality, ◌==◌, ==_iff, ==_refl, if◌then◌else◌, Bool-cases,
  Option-cases, All, All-append, All-reverse, length, filter, find?, is_empty, first?, last?,
  contains, is_some, get_or, truthy, or_else, split, join, ◌≡◌, ◌≢◌, ◌↔◌, ◌⊎◌, inl, inr, refl, sym,
  ap, ◌∙◌, subst, fun_ext, arith, ltb, leb, Result,
}

pub data Theme : Type 0 where
  light dark : Theme

-- `localStorage` under the key "aw-theme": it may throw, and holds a text or nothing.
pub data Storage : Type 0 where
  denied : Storage
  held : Option Text → Storage

unfoldable pub theme_text : Theme → Text
theme_text light = units "light"
theme_text dark = units "dark"

unfoldable pub parse_theme : Text → Option Theme
parse_theme t =
    if t == units "light" then some light else if t == units "dark" then some dark else none

unfoldable pub read_stored : Storage → Option Theme
unfolding parse_theme
read_stored denied = none
read_stored (held none) = none
read_stored (held (some t)) = parse_theme t

unfoldable pub preferred_theme : Bool → Theme
preferred_theme prefers_dark = if prefers_dark then dark else light

unfoldable pub current_theme : Storage → Bool → Theme
unfolding read_stored preferred_theme
current_theme storage prefers_dark = get_or (read_stored storage) (preferred_theme prefers_dark)

-- The page: whether the class "dark" stands on the root element, and the storage.
pub record Browser : Type 0 where
  pub dark_class : Bool
  pub storage : Storage

abbrev pub is_dark : Theme → Bool
is_dark light = false
is_dark dark = true

unfoldable pub apply_theme : Theme → Browser → Browser
apply_theme theme b = record b { dark_class = is_dark theme }

unfoldable pub set_item : Theme → Storage → Storage
unfolding theme_text
set_item theme denied = denied
set_item theme (held old) = held (some (theme_text theme))

unfoldable pub set_stored_theme : Theme → Browser → Browser
unfolding apply_theme set_item
set_stored_theme theme b =
    let b' = apply_theme theme b in record b' { storage = set_item theme b'.storage }

-- `applyStoredTheme`, which runs before the first rendering.
unfoldable pub apply_stored_theme : Bool → Browser → Browser
unfolding current_theme apply_theme
apply_stored_theme prefers_dark b = apply_theme (current_theme b.storage prefers_dark) b

unfoldable pub other_theme : Theme → Theme
other_theme dark = light
other_theme light = dark

-- `toggle` of `ThemeToggle`: the browser and the component's state.
unfoldable pub toggle : Theme → Browser → Theme × Browser
unfolding other_theme set_stored_theme
toggle theme b = (other_theme theme, set_stored_theme (other_theme theme) b)
