-- ===== src/Site/Docs/Nav.antt =====
-- web/lib/docs.ts: the paths of the pages and the navigation.
pub mod Order
pub mod Cover
use agentic_warden.Prelude.{
  ℕ, zero, suc, ◌+◌, ◌-◌, ◌*◌, ◌≤◌, ◌<◌, Bool, true, false, not, ◌&&◌, ◌||◌, String, Option, none,
  some, List, [], ◌∷◌, ◌++◌, map, reverse, flat_map, append_assoc, append-nil, Text, units,
  text_beq, text_eq, nat_eq, Equality, ◌==◌, ==_iff, ==_refl, if◌then◌else◌, Bool-cases,
  Option-cases, All, All-append, All-reverse, length, filter, find?, is_empty, first?, last?,
  contains, is_some, get_or, truthy, or_else, split, join, ◌≡◌, ◌≢◌, ◌↔◌, ◌⊎◌, inl, inr, refl, sym,
  ap, ◌∙◌, subst, fun_ext, arith, ltb, leb, Result,
}
use agentic_warden.Site.Docs.Frontmatter.{Section, sections, Doc}

unfoldable pub doc_slug : Text → List Text
doc_slug slug = if slug == units "index" then [] else slug ∷ []

unfoldable pub doc_href : Text → Text
unfolding doc_slug join
doc_href slug = join (units "/") (units "/docs" ∷ doc_slug slug)

pub record NavSection : Type 0 where
  pub id : Text
  pub label : Text
  pub pages : List Doc

-- A page goes in front of the first one of no smaller order.
unfoldable pub insert_page : Doc → List Doc → List Doc
insert_page d [] = d ∷ []
insert_page d (e ∷ es) = if leb d.order e.order then d ∷ e ∷ es else e ∷ insert_page d es

-- `pages.sort((a, b) => a.order - b.order)`, which keeps pages of one order as they stand.
unfoldable pub sort_pages : List Doc → List Doc
unfolding insert_page
sort_pages [] = []
sort_pages (d ∷ ds) = insert_page d (sort_pages ds)

abbrev pub in_section : Text → Doc → Bool
in_section id d = d.section == id

abbrev pub nav_section : List Doc → Section → NavSection
nav_section docs s = record {
  id = s.id;
  label = s.label;
  pages = sort_pages (filter (in_section s.id) docs);
}

unfoldable pub nav_sections : List Doc → List NavSection
unfolding sort_pages sections
nav_sections docs = filter (λ s. not (is_empty s.pages)) (map (nav_section docs) sections)
