-- ===== src/Site/Docs/Nav/Cover.antt =====
-- The navigation leaves no page out.
use agentic_warden.Prelude.{
  true, not, List, [], ◌∷◌, map, Text, text_eq, nat_eq, ==_iff, Bool-cases, is_empty, ◌≡◌, ◌⊎◌, inl,
  inr, refl, sym, leb,
}
use agentic_warden.Prelude.{Occurs, Occurs-All, Occurs-filter, Occurs-map, ok}
use agentic_warden.Site.Docs.Frontmatter.{sections, Doc, load_docs}
use agentic_warden.Site.Docs.Frontmatter.Loaded.{IsPage, load_docs-IsPage}
use agentic_warden.Site.Docs.Nav.{
  NavSection, insert_page, sort_pages, in_section, nav_section, nav_sections,
}

Occurs-insert_page :
    (d e : Doc) (es : List Doc) → (d ≡ e) ⊎ Occurs d es → Occurs d (insert_page e es)
unfolding insert_page
Occurs-insert_page d e [] o = o
Occurs-insert_page d e (x ∷ xs) o = elim (Bool-cases (leb e.order x.order)) [
  | inl le ↦ rw le o
  | inr gt ↦ rw gt (elim o [
    | inl same ↦ inr (Occurs-insert_page d e xs (inl same))
    | inr (inl here) ↦ inl here
    | inr (inr there) ↦ inr (Occurs-insert_page d e xs (inr there))
  ])
]

Occurs-sort_pages : (d : Doc) (ds : List Doc) → Occurs d ds → Occurs d (sort_pages ds)
unfolding sort_pages
Occurs-sort_pages d [] o = o
Occurs-sort_pages d (e ∷ es) (inl same) = Occurs-insert_page d e (sort_pages es) (inl same)
Occurs-sort_pages d (e ∷ es) (inr o) =
    Occurs-insert_page d e (sort_pages es) (inr (Occurs-sort_pages d es o))

not_empty : (d : Doc) (ds : List Doc) → Occurs d ds → not (is_empty ds) ≡ true
not_empty d [] o = absurd o
not_empty d (e ∷ es) o = refl

-- Every page that loads stands in the navigation, in the section that it names.
pub nav_sections-covers :
    (files : List (Text × Text)) (docs : List Doc) (d : Doc)
    → load_docs files ≡ ok docs
    → Occurs d docs
    → (s : NavSection) × Occurs s (nav_sections docs) × (s.id ≡ d.section) × Occurs d s.pages
unfolding nav_sections
nav_sections-covers files docs d h o =
    let (_, _, (s, listed, same)) = Occurs-All IsPage d docs o (load_docs-IsPage files docs h).0 in
    let mine : in_section s.id d ≡ true = (==_iff d.section s.id).1 same in
    let stands = Occurs-sort_pages d _ (Occurs-filter (in_section s.id) d docs o mine) in
    (
      nav_section docs s,
      Occurs-filter (λ n. not (is_empty n.pages)) (nav_section docs s)
          (map (nav_section docs) sections) (Occurs-map (nav_section docs) s sections listed)
          (not_empty d _ stands),
      sym same,
      stands,
    )
