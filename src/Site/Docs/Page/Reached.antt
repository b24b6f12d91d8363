-- ===== src/Site/Docs/Page/Reached.antt =====
-- The links between pages and the routes they lead to.
use agentic_warden.Prelude.{
  true, false, none, some, List, [], ◌∷◌, ◌++◌, Text, units, text_eq, nat_eq, ◌==◌, ==_iff,
  Bool-cases, All, join, ◌≡◌, ◌≢◌, inl, inr, refl, sym, ap, ◌∙◌,
}
use agentic_warden.Prelude.{all_units, Occurs, Occurs-All}
use agentic_warden.Site.Docs.Frontmatter.{Doc}
use agentic_warden.Site.Docs.Nav.{doc_slug, doc_href}
use agentic_warden.Site.Docs.Links.{is_slug_unit, is_fragment, rewrite_href}
use agentic_warden.Site.Docs.Links.Rewriting.{rewrite_href-page}
use agentic_warden.Site.Docs.Page.{static_params, route_of, find_doc, docs_page}
use agentic_warden.Site.Docs.Page.Routes.{find_doc-static_params}

-- The address at which the framework serves the route with these parameters.
abbrev pub address_of : List Text → Text
address_of params = join (units "/") (units "/docs" ∷ params)

doc_href-address_of : (slug : Text) → doc_href slug ≡ address_of (doc_slug slug)
unfolding doc_href
doc_href-address_of slug = refl

route_of_index : (s : Text) → (s == units "index") ≡ true → route_of (doc_slug s) ≡ []
unfolding doc_slug join
route_of_index s h = rw (h) refl

route_of_name : (s : Text) → (s == units "index") ≡ false → route_of (doc_slug s) ≡ s
unfolding doc_slug join
route_of_name s h = rw (h) refl

pub route_of-injective :
    (s t : Text) → s ≢ [] → t ≢ [] → route_of (doc_slug s) ≡ route_of (doc_slug t) → s ≡ t
route_of-injective s t a b h = elim (Bool-cases (s == units "index")) [
  | inl i ↦ elim (Bool-cases (t == units "index")) [
    | inl j ↦ (==_iff s (units "index")).0 i ∙ sym ((==_iff t (units "index")).0 j)
    | inr j ↦ absurd (b (sym (route_of_name t j) ∙ sym h ∙ route_of_index s i))
  ]
  | inr i ↦ elim (Bool-cases (t == units "index")) [
    | inl j ↦ absurd (a (sym (route_of_name s i) ∙ h ∙ route_of_index t j))
    | inr j ↦ sym (route_of_name s i) ∙ h ∙ route_of_name t j
  ]
]

-- A link to a loaded page, written as in the repository, becomes the address of a generated route,
-- with the fragment kept, and the route shows a loaded page of the name that is linked: it is never
-- answered with "not found". This takes a name of letters, digits, "_" and "-", a fragment that is
-- empty or begins with "#" and has no line break, and that no file is called ".md".
pub rewrite_href-docs_page :
    (render_markdown : Text → Text) (docs : List Doc) (d : Doc) (fragment : Text)
    → Occurs d docs
    → All (λ e. e.slug ≢ []) docs
    → all_units is_slug_unit d.slug ≡ true
    → is_fragment fragment ≡ true
    → (params : List Text) × (rewrite_href (units "./" ++ d.slug ++ units ".md" ++ fragment)
        ≡ address_of params ++ fragment)
      × Occurs params (static_params docs)
      × ((e : Doc) × (find_doc docs params ≡ some e) × Occurs e docs × (e.slug ≡ d.slug))
      × (docs_page render_markdown docs params ≢ none)
rewrite_href-docs_page render_markdown docs d fragment o a b c =
    let named : (x : Doc) → Occurs x docs → x.slug ≢ [] =
      λ x h. Occurs-All (λ e. e.slug ≢ []) x docs h a in
    let (listed, (e, found, there, same), shown) =
      find_doc-static_params render_markdown docs d o in
    (
      doc_slug d.slug,
      rewrite_href-page d.slug fragment (named d o) b c
          ∙ ap (λ t. t ++ fragment) (doc_href-address_of d.slug),
      listed,
      (e, found, there, route_of-injective e.slug d.slug (named e there) (named d o) same),
      shown,
    )
