-- ===== src/Site/Docs/Page.antt =====
-- web/app/docs: the routes of the pages, their metadata and the sections of the navigation.
pub mod Routes
pub mod Reached
use agentic_warden.Prelude.{
  ℕ, zero, suc, ◌+◌, ◌-◌, ◌*◌, ◌≤◌, ◌<◌, Bool, true, false, not, ◌&&◌, ◌||◌, String, Option, none,
  some, List, [], ◌∷◌, ◌++◌, map, reverse, flat_map, append_assoc, append-nil, Text, units,
  text_beq, text_eq, nat_eq, Equality, ◌==◌, ==_iff, ==_refl, if◌then◌else◌, Bool-cases,
  Option-cases, All, All-append, All-reverse, length, filter, find?, is_empty, first?, last?,
  contains, is_some, get_or, truthy, or_else, split, join, ◌≡◌, ◌≢◌, ◌↔◌, ◌⊎◌, inl, inr, refl, sym,
  ap, ◌∙◌, subst, fun_ext, arith, ltb, leb, Result,
}
use agentic_warden.Site.Env.{Env, site_url}
use agentic_warden.Site.Docs.Frontmatter.{Doc}
use agentic_warden.Site.Docs.Nav.{doc_slug, doc_href, NavSection, nav_sections}
use agentic_warden.View.{Attr, attr, Html, el, say, show}

-- `generateStaticParams`
unfoldable pub static_params : List Doc → List (List Text)
static_params docs = map (λ d. doc_slug d.slug) docs

-- `docSlug(slug).join("/")`
abbrev pub route_of : List Text → Text
route_of slug = join (units "/") slug

-- `find(slug)`
unfoldable pub find_doc : List Doc → List Text → Option Doc
find_doc docs slug = find? (λ d. route_of (doc_slug d.slug) == route_of slug) docs

pub record DocMetadata : Type 0 where
  pub title : Text
  pub description : Text
  pub canonical : Text

unfoldable pub doc_metadata : Env → List Doc → List Text → Option DocMetadata
unfolding find_doc
doc_metadata env docs slug = elim (find_doc docs slug) [
  | none ↦ none
  | some d ↦ some (record {
    title = d.title ++ units " — Agentic Warden docs";
    description = d.description;
    canonical = site_url env ++ doc_href d.slug;
  })
]

-- The page, or `notFound()`; the body is rendered by the markdown library with the renderers of
-- docs.ts.
unfoldable pub docs_page : (Text → Text) → List Doc → List Text → Option (Html ⊥)
docs_page render_markdown docs slug = elim (find_doc docs slug) [
  | none ↦ none
  | some d ↦ some (
      el "article" [] (
        el "h1" [] (show d.title)
        ++ el "p" [] (show d.description)
        ++ el "div" [] (show (render_markdown d.body))))
]

-- A page of the navigation, as the layout hands it to `DocsNav`.
pub record NavPage : Type 0 where
  pub slug : Text
  pub title : Text
  pub href : Text

pub record NavGroup : Type 0 where
  pub id : Text
  pub label : Text
  pub pages : List NavPage

unfoldable pub layout_sections : List Doc → List NavGroup
layout_sections docs =
    map
      (λ s. record {
        id = s.id;
        label = s.label;
        pages =
            map (λ d. record { slug = d.slug; title = d.title; href = doc_href d.slug }) s.pages;
      })
      (nav_sections docs)

abbrev nav_item : Text → NavPage → Html ⊥
nav_item pathname p = el "li" [] (
    el "Link"
      (attr "href" p.href
        ∷ (if pathname == p.href
            then attr "aria-current" (units "page")
              ∷ attr "className" (units "font-medium text-foreground")
              ∷ []
            else attr "className" (units "text-muted-foreground hover:text-foreground") ∷ []))
      (show p.title))

-- `DocsNav`, for the path that the router reports.
unfoldable pub docs_nav : Text → List NavGroup → Html ⊥
docs_nav pathname groups = el "nav" (attr "aria-label" (units "Docs") ∷ []) (
    el "details" [] (
      el "summary" [] (say "Docs menu")
      ++ el "div" [] (
          flat_map
            (λ s.
              el "div" []
                (el "h2" [] (show s.label) ++ el "ul" [] (flat_map (nav_item pathname) s.pages)))
            groups)))
