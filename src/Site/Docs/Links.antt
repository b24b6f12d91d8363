-- ===== src/Site/Docs/Links.antt =====
-- web/lib/docs.ts: the links inside a page, and the escaping of code.
pub mod Rewriting
pub mod Escaping
use agentic_warden.Prelude.{
  ℕ, zero, suc, ◌+◌, ◌-◌, ◌*◌, ◌≤◌, ◌<◌, Bool, true, false, not, ◌&&◌, ◌||◌, String, Option, none,
  some, List, [], ◌∷◌, ◌++◌, map, reverse, flat_map, append_assoc, append-nil, Text, units,
  text_beq, text_eq, nat_eq, Equality, ◌==◌, ==_iff, ==_refl, if◌then◌else◌, Bool-cases,
  Option-cases, All, All-append, All-reverse, length, filter, find?, is_empty, first?, last?,
  contains, is_some, get_or, truthy, or_else, split, join, ◌≡◌, ◌≢◌, ◌↔◌, ◌⊎◌, inl, inr, refl, sym,
  ap, ◌∙◌, subst, fun_ext, arith, ltb, leb, Result,
}
use agentic_warden.Prelude.{starts_with, take_while, drop_while, is_word, is_terminator}
use agentic_warden.Prelude.{all_units}
use agentic_warden.Site.Docs.Frontmatter.{behind}
use agentic_warden.Site.Docs.Nav.{doc_href}

-- `[\w-]`
abbrev pub is_slug_unit : ℕ → Bool
is_slug_unit c = is_word c || c == b'-'

-- `(#.*)?$`: nothing, or a fragment up to the end.
unfoldable pub is_fragment : Text → Bool
unfolding is_terminator
is_fragment [] = true
is_fragment (c ∷ s) = c == b'#' && all_units (λ d. not (is_terminator d)) s

-- `/^\.\/([\w-]+)\.md(#.*)?$/`: the slug and the fragment.
unfoldable pub page_link : Text → Option (Text × Text)
unfolding behind take_while drop_while is_word is_fragment
page_link href = elim (behind (units "./") href) [
  | none ↦ none
  | some r ↦ elim (behind (units ".md") (drop_while is_slug_unit r)) [
    | none ↦ none
    | some fragment ↦
        if truthy (take_while is_slug_unit r) && is_fragment fragment
        then some (take_while is_slug_unit r, fragment)
        else none
  ]
]

-- `[^/#?]`
abbrev pub is_name_unit : ℕ → Bool
is_name_unit c = not (c == b'/' || c == b'#' || c == b'?')

-- `/^\.\.\/assets\/([^/#?]+)$/`
unfoldable pub asset_link : Text → Option Text
unfolding behind
asset_link href = elim (behind (units "../assets/") href) [
  | none ↦ none
  | some file ↦ if truthy file && all_units is_name_unit file then some file else none
]

unfoldable pub rewrite_href : Text → Text
rewrite_href href = elim (page_link href) [
  | some (slug, fragment) ↦ doc_href slug ++ fragment
  | none ↦ elim (asset_link href) [ some file ↦ units "/docs-assets/" ++ file | none ↦ href ]
]

-- `text.replace(/c/g, by)` for one character.
abbrev pub replace_all : ℕ → Text → Text → Text
replace_all c by = flat_map (λ d. if d == c then by else d ∷ [])

unfoldable pub escape_html : Text → Text
escape_html s = replace_all b'"' (units "&quot;") (
    replace_all b'>' (units "&gt;")
      (replace_all b'<' (units "&lt;") (replace_all b'&' (units "&amp;") s)))

-- The renderer of a code block.
unfoldable pub render_code : Text → Text → Text
unfolding escape_html
render_code code lang =
    units
      "<div class=\"code-block\"><button type=\"button\" class=\"copy-button\" aria-label=\"Copy\">Copy</button><pre><code"
    ++ (if truthy lang then units " class=\"language-" ++ escape_html lang ++ units "\"" else [])
    ++ units ">"
    ++ escape_html code
    ++ units "</code></pre></div>\n"
