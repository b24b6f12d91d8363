-- ===== src/Site/Seo/Sitemap.antt =====
-- The sitemap of web/app/sitemap.ts against the pages: web/lib/seo.ts for the routes of the site and
-- web/app/docs/[[...slug]]/page.tsx for the documentation.
use agentic_warden.Prelude.{
  some, List, [], ◌++◌, All, map, Option-cases, find?, Text, text_eq, nat_eq, ◌==◌, ==_iff, ==_refl,
  ◌≡◌, ◌≢◌, ◌↔◌, ◌⊎◌, inl, inr, sym, ap, ◌∙◌, subst, arith,
}
use agentic_warden.Prelude.{
  Occurs, Occurs-All, Occurs-append, Occurs-map, Occurs-map_inverse, find?-Occurs, find?-hit,
}
use agentic_warden.Site.Env.{Env, site_url}
use agentic_warden.Site.Docs.Frontmatter.{Doc}
use agentic_warden.Site.Docs.Nav.{doc_slug, doc_href}
use agentic_warden.Site.Docs.Page.{static_params, route_of, find_doc, DocMetadata, doc_metadata}
use agentic_warden.Site.Docs.Page.Routes.{find_doc-static_params}
use agentic_warden.Site.Docs.Page.Reached.{route_of-injective}
use agentic_warden.Site.Seo.{Route, routes, absolute, PageMetadata, page_metadata, sitemap}

-- The address that a page of the site names as its own.
abbrev pub IsRouteAddress : Env → Text → Type 0
IsRouteAddress env a =
    (path : Text) × (m : PageMetadata) × (page_metadata env path ≡ some m) × (m.canonical ≡ a)

-- The address that a generated page of the documentation names as its own.
abbrev pub IsDocAddress : Env → List Doc → Text → Type 0
IsDocAddress env docs a =
    (slug : List Text) × (m : DocMetadata) × Occurs slug (static_params docs)
    × (doc_metadata env docs slug ≡ some m)
    × (m.canonical ≡ a)

module _ (env : Env) where
  route-address : (r : Route) → Occurs r routes → IsRouteAddress env (absolute env r.path)
  unfolding page_metadata absolute
  route-address r o =
      let (r', found) = find?-hit (λ q. q.path == r.path) r routes o (==_refl r.path) in
      elim (Option-cases (page_metadata env r.path)) [
        | inl e ↦ absurd (ground arith)
        | inr (m, e) ↦ (r.path, m, e, ground arith)
      ]

  address-route :
      (a : Text) → IsRouteAddress env a → (r : Route) × Occurs r routes × (a ≡ absolute env r.path)
  unfolding page_metadata absolute
  address-route a (path, m, known, same) =
      elim (Option-cases (find? (λ r. r.path == path) routes)) [
        | inl e ↦ absurd (ground arith)
        | inr (r, e) ↦
            let canonical : m.canonical ≡ site_url env ++ path = ground arith in
            let (o, hit) = find?-Occurs (λ r. r.path == path) routes r e in
            (
              r,
              o,
              sym same ∙ canonical ∙ ap (λ t. site_url env ++ t) (sym ((==_iff r.path path).0 hit)),
            )
      ]

  module _ (docs : List Doc) (named : All (λ d. d.slug ≢ []) docs) where
    doc-address : (d : Doc) → Occurs d docs → IsDocAddress env docs (absolute env (doc_href d.slug))
    unfolding doc_metadata absolute
    doc-address d o =
        let (listed, (e, found, there, same), shown) = find_doc-static_params (λ t. t) docs d o in
        let slug =
          route_of-injective e.slug d.slug (Occurs-All (λ x. x.slug ≢ []) e docs there named)
            (Occurs-All (λ x. x.slug ≢ []) d docs o named) same in
        elim (Option-cases (doc_metadata env docs (doc_slug d.slug))) [
          | inl n ↦ absurd (ground arith)
          | inr (m, k) ↦
              let canonical : m.canonical ≡ site_url env ++ doc_href e.slug = ground arith in
              (doc_slug d.slug, m, listed, k, canonical ∙ ap (λ t. site_url env ++ doc_href t) slug)
        ]

    address-doc :
        (a : Text)
        → IsDocAddress env docs a
        → (d : Doc) × Occurs d docs × (a ≡ absolute env (doc_href d.slug))
    unfolding doc_metadata absolute find_doc
    address-doc a (slug, m, listed, known, same) = elim (Option-cases (find_doc docs slug)) [
      | inl e ↦ absurd (ground arith)
      | inr (d, e) ↦
          let canonical : m.canonical ≡ site_url env ++ doc_href d.slug = ground arith in
          (
            d,
            (find?-Occurs (λ x. route_of (doc_slug x.slug) == route_of slug) docs d e).0,
            sym same ∙ canonical,
          )
    ]

    -- The sitemap lists exactly the addresses that the pages name as their own, those of the site's
    -- routes and those of the documentation's generated pages, if no file is called ".md".
    pub sitemap-addresses :
        (a : Text) → Occurs a (sitemap env docs) ↔ (IsRouteAddress env a ⊎ IsDocAddress env docs a)
    unfolding sitemap
    sitemap-addresses a =
        let paths = map (λ r. r.path) routes in
        let hrefs = map (λ d. doc_href d.slug) docs in
        (
          λ o.
              let (t, listed, e) = Occurs-map_inverse (absolute env) a (paths ++ hrefs) o in
              elim ((Occurs-append t paths hrefs).0 listed) [
                | inl of_site ↦
                    let (r, there, e') = Occurs-map_inverse (λ r. r.path) t routes of_site in
                    inl (
                      subst (IsRouteAddress env) (ap (absolute env) (sym e') ∙ sym e)
                        (route-address r there))
                | inr of_docs ↦
                    let (d, there, e') = Occurs-map_inverse (λ d. doc_href d.slug) t docs of_docs in
                    inr (
                      subst (IsDocAddress env docs) (ap (absolute env) (sym e') ∙ sym e)
                        (doc-address d there))
              ],
          λ o. elim o [
            | inl of_site ↦
                let (r, there, e) = address-route a of_site in
                subst (λ t. Occurs t (map (absolute env) (paths ++ hrefs))) (sym e)
                  (Occurs-map (absolute env) r.path (paths ++ hrefs) (
                    (Occurs-append r.path paths hrefs).1
                      (inl (Occurs-map (λ q. q.path) r routes there))))
            | inr of_docs ↦
                let (d, there, e) = address-doc a of_docs in
                subst (λ t. Occurs t (map (absolute env) (paths ++ hrefs))) (sym e)
                  (Occurs-map (absolute env) (doc_href d.slug) (paths ++ hrefs) (
                    (Occurs-append (doc_href d.slug) paths hrefs).1
                      (inr (Occurs-map (λ q. doc_href q.slug) d docs there))))
          ],
        )
