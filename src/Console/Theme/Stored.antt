-- ===== src/Console/Theme/Stored.antt =====
-- The theme of a page outlives the page.
use agentic_warden.Prelude.{Bool, some, units, text_beq, text_eq, nat_eq, ◌≡◌, ◌≢◌, refl, arith}
use agentic_warden.Console.Theme.{
  Theme, light, dark, Storage, denied, held, theme_text, parse_theme, read_stored, current_theme,
  Browser, is_dark, apply_stored_theme, toggle,
}

parse_theme-theme_text : (t : Theme) → parse_theme (theme_text t) ≡ some t
unfolding parse_theme theme_text units text_beq
parse_theme-theme_text light = refl
parse_theme-theme_text dark = refl

-- Where the storage works, the theme that a toggle chose is the one with which the next page loads,
-- whatever the system prefers, and the class of the root element agrees with the component's state
-- both times. Where it is denied, the toggle still shows, and the next page follows the system.
pub toggle-apply_stored_theme :
    (theme : Theme) (prefers_dark : Bool) (b : Browser)
    → let after = toggle theme b in
      let next = apply_stored_theme prefers_dark after.1 in
      (after.1.dark_class ≡ is_dark after.0)
      × (after.0 ≢ theme)
      × (b.storage ≢ denied
          → (current_theme after.1.storage prefers_dark ≡ after.0)
            × (next.dark_class ≡ is_dark after.0))
      × (b.storage ≡ denied → next.dark_class ≡ prefers_dark)
unfolding toggle apply_stored_theme
toggle-apply_stored_theme theme prefers_dark b = go theme (b.storage) refl
  where
    kept : (t : Theme) → read_stored (held (some (theme_text t))) ≡ some t
    kept t = parse_theme-theme_text t

    go :
        (t : Theme) (s : Storage)
        → b.storage ≡ s
        → let after = toggle t b in
          let next = apply_stored_theme prefers_dark after.1 in
          (after.1.dark_class ≡ is_dark after.0)
          × (after.0 ≢ t)
          × (b.storage ≢ denied
              → (current_theme after.1.storage prefers_dark ≡ after.0)
                × (next.dark_class ≡ is_dark after.0))
          × (b.storage ≡ denied → next.dark_class ≡ prefers_dark)
    go light denied e = ground arith
    go light (held o) e = ground (arith, kept dark)
    go dark denied e = ground arith
    go dark (held o) e = ground (arith, kept light)
