-- ===== src/Site/Docs/Page/Routes.antt =====
-- Every loaded page has a route, and the route shows a page.
use agentic_warden.Prelude.{
  none, some, List, Text, text_eq, nat_eq, ◌==◌, ==_iff, ==_refl, ◌≡◌, ◌≢◌, arith,
}
use agentic_warden.Prelude.{Occurs, Occurs-map, find?-Occurs, find?-hit}
use agentic_warden.Site.Docs.Frontmatter.{Doc}
use agentic_warden.Site.Docs.Nav.{doc_slug}
use agentic_warden.Site.Docs.Page.{static_params, route_of, find_doc, docs_page}

find_doc-hit :
    (docs : List Doc) (d : Doc)
    → Occurs d docs
    → (e : Doc) × (find_doc docs (doc_slug d.slug) ≡ some e)
unfolding find_doc
find_doc-hit docs d o =
    find?-hit (λ e. route_of (doc_slug e.slug) == route_of (doc_slug d.slug)) d docs o
      (==_refl (route_of (doc_slug d.slug)))

-- Every page that is loaded has a route among the generated ones, and the route shows a page with
-- the same address; it is never answered with "not found".
pub find_doc-static_params :
    (render_markdown : Text → Text) (docs : List Doc) (d : Doc)
    → Occurs d docs
    → Occurs (doc_slug d.slug) (static_params docs)
      × ((e : Doc) × (find_doc docs (doc_slug d.slug) ≡ some e)
          × Occurs e docs
          × (route_of (doc_slug e.slug) ≡ route_of (doc_slug d.slug)))
      × (docs_page render_markdown docs (doc_slug d.slug) ≢ none)
unfolding static_params docs_page
find_doc-static_params render_markdown docs d o =
    let (e, found) = find_doc-hit docs d o in
    let (listed, hit) =
      find?-Occurs (λ x. route_of (doc_slug x.slug) == route_of (doc_slug d.slug)) docs e
        (unfold find_doc in found) in
    (
      Occurs-map (λ x. doc_slug x.slug) d docs o,
      (e, found, listed, (==_iff (route_of (doc_slug e.slug)) (route_of (doc_slug d.slug))).0 hit),
      λ h. ground (arith, found),
    )
