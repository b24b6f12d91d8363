-- ===== src/Site/Docs/Links/Rewriting.antt =====
-- What the links of a page become.
use agentic_warden.Prelude.{
  true, none, some, [], ◌∷◌, ◌++◌, append_assoc, Text, units, text_eq, nat_eq, ◌≡◌, ◌≢◌, refl,
  arith,
}
use agentic_warden.Prelude.{take_while, drop_while, is_word}
use agentic_warden.Prelude.{all_units}
use agentic_warden.Site.Docs.Frontmatter.{behind}
use agentic_warden.Site.Docs.Frontmatter.Matching.{
  behind-append, take_while-append, drop_while-append,
}
use agentic_warden.Site.Docs.Nav.{doc_href}
use agentic_warden.Site.Docs.Links.{
  is_slug_unit, is_name_unit, is_fragment, page_link, asset_link, rewrite_href,
}

suffix_stops :
    (f : Text)
    → (take_while is_slug_unit (units ".md" ++ f) ≡ [])
      × (drop_while is_slug_unit (units ".md" ++ f) ≡ units ".md" ++ f)
unfolding take_while drop_while units is_word
suffix_stops f = (refl, refl)

page_link-slug :
    (slug fragment : Text)
    → slug ≢ []
    → all_units is_slug_unit slug ≡ true
    → is_fragment fragment ≡ true
    → page_link (units "./" ++ slug ++ units ".md" ++ fragment) ≡ some (slug, fragment)
unfolding page_link
page_link-slug [] fragment ne h k = absurd (ne refl)
page_link-slug (c ∷ s) fragment ne h k = rw append_assoc (
    rw append_assoc (
      ground (
        arith,
        behind-append (units "./") ((c ∷ s) ++ (units ".md" ++ fragment)),
        take_while-append is_slug_unit (c ∷ s) (units ".md" ++ fragment),
        drop_while-append is_slug_unit (c ∷ s) (units ".md" ++ fragment),
        suffix_stops fragment,
        behind-append (units ".md") fragment,
      )))

page_link-asset : (rest : Text) → page_link (units "../assets/" ++ rest) ≡ none
unfolding page_link units
page_link-asset rest = refl

asset_link-name :
    (file : Text)
    → file ≢ []
    → all_units is_name_unit file ≡ true
    → asset_link (units "../assets/" ++ file) ≡ some file
unfolding asset_link
asset_link-name [] ne h = absurd (ne refl)
asset_link-name (c ∷ s) ne h = ground (arith, behind-append (units "../assets/") (c ∷ s))

page_link_other : (href : Text) → behind (units "./") href ≡ none → page_link href ≡ none
unfolding page_link
page_link_other href h = ground arith

asset_link_other : (href : Text) → behind (units "../assets/") href ≡ none → asset_link href ≡ none
unfolding asset_link
asset_link_other href h = ground arith

pub rewrite_href-page :
    (slug fragment : Text)
    → slug ≢ []
    → all_units is_slug_unit slug ≡ true
    → is_fragment fragment ≡ true
    → rewrite_href (units "./" ++ slug ++ units ".md" ++ fragment) ≡ doc_href slug ++ fragment
unfolding rewrite_href
rewrite_href-page slug fragment a b c = ground (arith, page_link-slug slug fragment a b c)

-- A link to a page of the repository's documentation becomes the path of the page with its
-- fragment kept; a link to an image becomes the path that serves it; a link that begins with
-- neither "./" nor "../assets/" stays as it is.
pub rewrite_href_lem :
    (slug fragment file href : Text)
    → slug ≢ []
    → all_units is_slug_unit slug ≡ true
    → is_fragment fragment ≡ true
    → file ≢ []
    → all_units is_name_unit file ≡ true
    → behind (units "./") href ≡ none
    → behind (units "../assets/") href ≡ none
    → (rewrite_href (units "./" ++ slug ++ units ".md" ++ fragment) ≡ doc_href slug ++ fragment)
      × (rewrite_href (units "../assets/" ++ file) ≡ units "/docs-assets/" ++ file)
      × (rewrite_href href ≡ href)
unfolding rewrite_href
rewrite_href_lem slug fragment file href a b c d e f g = (
  rewrite_href-page slug fragment a b c,
  ground (arith, page_link-asset file, asset_link-name file d e),
  ground (arith, page_link_other href f, asset_link_other href g),
)
