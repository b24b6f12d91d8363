-- ===== src/Site/Docs/Links/Escaping.antt =====
-- Escaped text cannot leave an attribute or open an element.
use agentic_warden.Prelude.{
  ℕ, [], ◌∷◌, ◌++◌, flat_map, append_assoc, Text, units, text_eq, nat_eq, ◌==◌, if◌then◌else◌, All,
  All-append, ◌≡◌, ◌≢◌, refl, ◌∙◌, arith,
}
use mathlib.Core.Path.{ap₂}
use agentic_warden.Site.Docs.Links.{escape_html, replace_all}

-- None of the three characters that end a quoted attribute or begin or end a tag.
abbrev pub IsInert : Text → Type 0
IsInert = All (λ c. (c ≢ b'<') × (c ≢ b'>') × (c ≢ b'"'))

-- The four replacements at one character.
abbrev pub entity : ℕ → Text
entity c =
    if c == b'&'
    then units "&amp;"
    else if c == b'<'
    then units "&lt;"
    else if c == b'>'
    then units "&gt;"
    else if c == b'"'
    then units "&quot;"
    else c ∷ []

replace_all-append :
    (c : ℕ) (by s t : Text) → replace_all c by (s ++ t) ≡ replace_all c by s ++ replace_all c by t
unfolding flat_map
replace_all-append c by [] t = refl
replace_all-append c by (d ∷ s) t = simp (replace_all-append c by s t, append_assoc)

escape_html-append : (s t : Text) → escape_html (s ++ t) ≡ escape_html s ++ escape_html t
unfolding escape_html
escape_html-append s t = simp replace_all-append

escape_html_unit : (c : ℕ) → escape_html (c ∷ []) ≡ entity c
unfolding escape_html units flat_map
escape_html_unit c = ground arith

-- The four replacements in a row are one pass over the text, in which each character becomes its
-- entity.
pub escape_html-flat_map : (s : Text) → escape_html s ≡ flat_map entity s
unfolding flat_map
escape_html-flat_map [] = unfold escape_html flat_map in refl
escape_html-flat_map (c ∷ s) =
    escape_html-append (c ∷ []) s
    ∙ ap₂ (λ a b. a ++ b) (escape_html_unit c) (escape_html-flat_map s)

entity-IsInert : (c : ℕ) → IsInert (entity c)
unfolding units
entity-IsInert c = ground arith

flat_map-IsInert : (s : Text) → IsInert (flat_map entity s)
unfolding flat_map
flat_map-IsInert [] = tt
flat_map-IsInert (c ∷ s) =
    All-append (λ d. (d ≢ b'<') × (d ≢ b'>') × (d ≢ b'"')) (entity c) (flat_map entity s)
      (entity-IsInert c) (flat_map-IsInert s)

-- Escaped text holds no angle bracket and no double quote.
pub escape_html-IsInert : (s : Text) → IsInert (escape_html s)
escape_html-IsInert s = rw escape_html-flat_map (flat_map-IsInert s)
