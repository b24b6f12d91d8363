-- ===== src/Examples/Docs.antt =====
-- web/lib/docs.ts at concrete pages, links and files.
use agentic_warden.Prelude.{
  none, some, List, [], ◌∷◌, ◌++◌, Text, units, text_beq, text_eq, nat_eq, All, ◌≡◌, ◌≢◌, ◌↔◌, ◌⊎◌,
  inl, refl,
}
use agentic_warden.Prelude.{Occurs, ok, throw}
use agentic_warden.Site.Env.{Env, site_url}
use agentic_warden.Site.Seo.{sitemap}
use agentic_warden.Site.Seo.Sitemap.{IsRouteAddress, IsDocAddress, sitemap-addresses}
use agentic_warden.Site.Docs.Frontmatter.{Doc, parse_doc, load_docs, sections}
use agentic_warden.Site.Docs.Nav.{doc_href, NavSection, nav_sections}
use agentic_warden.Site.Docs.Nav.Order.{IsOrdered, nav_sections-IsOrdered}
use agentic_warden.Site.Docs.Nav.Cover.{nav_sections-covers}
use agentic_warden.Site.Docs.Assets.{extension, asset_path, prototype_names, asset_types}
use agentic_warden.Site.Docs.Links.{rewrite_href, page_link, is_fragment, escape_html}
use agentic_warden.Site.Docs.Links.Escaping.{IsInert, escape_html-IsInert}
use agentic_warden.Site.Docs.Headings.{heading_ids}
use agentic_warden.Site.Docs.Headings.Ids.{
  ids_of, numbered, occurrences, Distinct, heading_ids-numbered,
}
use agentic_warden.Site.Docs.Page.{static_params, find_doc, docs_page}
use agentic_warden.Site.Docs.Page.Reached.{address_of, rewrite_href-docs_page}

docs : Unit {0}
unfolding load_docs units text_beq doc_href rewrite_href page_link is_fragment heading_ids
    asset_path nav_sections sections
docs = tt

abbrev page : Text
page =
    units
      "---\r\ntitle: \"Fix issue #12\"\r\nsection: guides\r\norder: 3\r\ndescription: 'Use a # here'\r\n---\r\n# Fix\n\ntext\r\n"

abbrev guide : Doc
guide = record {
  slug = units "a";
  title = units "Fix issue #12";
  section = units "guides";
  order = 3;
  description = units "Use a # here";
  body = units "text\r\n";
}

parsed : parse_doc (units "a.md") page ≡ ok guide
unfolding docs
parsed = refl

no_description :
    parse_doc (units "a.md") (units "---\ntitle: A\nsection: guides\norder: 1\n---\n")
    ≡ throw (units "a.md: frontmatter needs description")
unfolding docs
no_description = refl

abbrev files : List (Text × Text)
files = (units "a.md", page) ∷ (units "notes.txt", units "ignored") ∷ []

loaded : load_docs files ≡ ok (guide ∷ [])
unfolding docs
loaded = refl

nav_sections-IsOrdered_example : All (IsOrdered (guide ∷ [])) (nav_sections (guide ∷ []))
nav_sections-IsOrdered_example = nav_sections-IsOrdered (guide ∷ [])

nav_sections-covers_example :
    (s : NavSection) × Occurs s (nav_sections (guide ∷ []))
    × (s.id ≡ units "guides")
    × Occurs guide s.pages
nav_sections-covers_example = nav_sections-covers files (guide ∷ []) guide loaded (inl refl)

abbrev join_path : Text → Text → Text
join_path dir file = dir ++ units "/" ++ file

served : asset_path join_path (units "d") (units "x.gif") ≡ some (units "d/x.gif")
unfolding docs
served = refl

inherited_served :
    asset_path join_path (units "d") (units "x.constructor") ≡ some (units "d/x.constructor")
unfolding docs prototype_names asset_types extension
inherited_served = refl

index_link : rewrite_href (units "./index.md#top") ≡ units "/docs#top"
unfolding docs
index_link = refl

escape_html-IsInert_example : IsInert (escape_html (units "a<b\""))
escape_html-IsInert_example = escape_html-IsInert (units "a<b\"")

heading_ids-numbered_example :
    (ids_of
        (units "a")
        (units "a" ∷ units "b" ∷ units "a" ∷ [])
        (heading_ids [] (units "a" ∷ units "b" ∷ units "a" ∷ []))
      ≡ numbered (units "a") 0 (occurrences (units "a") (units "a" ∷ units "b" ∷ units "a" ∷ [])))
    × Distinct (
        ids_of
          (units "a")
          (units "a" ∷ units "b" ∷ units "a" ∷ [])
          (heading_ids [] (units "a" ∷ units "b" ∷ units "a" ∷ [])))
heading_ids-numbered_example =
    heading_ids-numbered (units "a") (units "a" ∷ units "b" ∷ units "a" ∷ [])

rewrite_href-docs_page_example :
    (params : List Text) × (rewrite_href (units "./" ++ units "a" ++ units ".md" ++ units "#top")
      ≡ address_of params ++ units "#top")
    × Occurs params (static_params (guide ∷ []))
    × ((e : Doc) × (find_doc (guide ∷ []) params ≡ some e)
        × Occurs e (guide ∷ [])
        × (e.slug ≡ units "a"))
    × (docs_page (λ s. s) (guide ∷ []) params ≢ none)
unfolding docs
rewrite_href-docs_page_example =
    rewrite_href-docs_page (λ s. s) (guide ∷ []) guide (units "#top") (inl refl) ((λ e. cc), tt)
      refl refl

-- An environment in which nothing is set.
abbrev unset : Env
unset key = none

sitemap-addresses_example :
    Occurs (site_url unset ++ units "/docs/a") (sitemap unset (guide ∷ [])) ↔ (
      IsRouteAddress unset (site_url unset ++ units "/docs/a")
      ⊎ IsDocAddress unset (guide ∷ []) (site_url unset ++ units "/docs/a"))
unfolding units
sitemap-addresses_example =
    sitemap-addresses unset (guide ∷ []) ((λ e. cc), tt) (site_url unset ++ units "/docs/a")
