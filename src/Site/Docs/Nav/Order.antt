-- ===== src/Site/Docs/Nav/Order.antt =====
-- The navigation orders the pages of a section and leaves none out.
use agentic_warden.Prelude.{
  ℕ, ◌≤◌, not, List, [], ◌∷◌, map, text_eq, nat_eq, ◌==◌, if◌then◌else◌, Bool-cases, All, filter,
  is_empty, ◌≡◌, ◌≢◌, inl, inr, refl, ap, ◌∙◌, arith, leb,
}
use agentic_warden.Site.Docs.Frontmatter.{Section, sections, Doc}
use agentic_warden.Site.Docs.Nav.{
  NavSection, insert_page, sort_pages, in_section, nav_section, nav_sections,
}

-- Each page's order is at most that of the next.
abbrev pub IsSorted : List Doc → Type 0
IsSorted [] = Unit
IsSorted (d ∷ ds) = All (λ e. d.order ≤ e.order) ds × IsSorted ds

All-weaken :
    {n m : ℕ} (ds : List Doc) → n ≤ m → All (λ e. m ≤ e.order) ds → All (λ e. n ≤ e.order) ds
All-weaken [] h a = tt
All-weaken (d ∷ ds) h a = (omega arith, All-weaken ds h a.1)

All-insert_page :
    (n : ℕ) (d : Doc) (ds : List Doc)
    → n ≤ d.order
    → All (λ e. n ≤ e.order) ds
    → All (λ e. n ≤ e.order) (insert_page d ds)
unfolding insert_page
All-insert_page n d [] h a = (h, tt)
All-insert_page n d (e ∷ es) h a = ground (arith, All-insert_page n d es h a.1)

insert_page-IsSorted : (d : Doc) (ds : List Doc) → IsSorted ds → IsSorted (insert_page d ds)
unfolding insert_page
insert_page-IsSorted d [] s = (tt, tt)
insert_page-IsSorted d (e ∷ es) s = elim (Bool-cases (leb d.order e.order)) [
  | inl le ↦ rw le (((ground arith), All-weaken es (ground arith) s.0), s)
  | inr gt ↦ rw gt (All-insert_page e.order d es (ground arith) s.0, insert_page-IsSorted d es s.1)
]

sort_pages-IsSorted : (ds : List Doc) → IsSorted (sort_pages ds)
unfolding sort_pages
sort_pages-IsSorted [] = tt
sort_pages-IsSorted (d ∷ ds) = insert_page-IsSorted d _ (sort_pages-IsSorted ds)

-- The pages of one order.
abbrev pub at_order : ℕ → List Doc → List Doc
at_order k = filter (λ d. d.order == k)

at_order-insert_page :
    (k : ℕ) (d : Doc) (ds : List Doc) → at_order k (insert_page d ds) ≡ at_order k (d ∷ ds)
unfolding insert_page
at_order-insert_page k d [] = refl
at_order-insert_page k d (e ∷ es) = ground (arith, at_order-insert_page k d es)

at_order-sort_pages : (k : ℕ) (ds : List Doc) → at_order k (sort_pages ds) ≡ at_order k ds
unfolding sort_pages
at_order-sort_pages k [] = refl
at_order-sort_pages k (d ∷ ds) =
    at_order-insert_page k d (sort_pages ds)
    ∙ ap (λ es. if d.order == k then d ∷ es else es) (at_order-sort_pages k ds)

-- What the navigation promises of a section: pages there are, in order, and for each order number
-- they are the section's documents of that number as they were loaded.
abbrev pub IsOrdered : List Doc → NavSection → Type 0
IsOrdered docs s =
    (s.pages ≢ [])
    × IsSorted s.pages
    × ((k : ℕ) → at_order k s.pages ≡ at_order k (filter (in_section s.id) docs))

All-nav_sections :
    (docs : List Doc) (ss : List Section)
    → All (IsOrdered docs) (filter (λ s. not (is_empty s.pages)) (map (nav_section docs) ss))
All-nav_sections docs [] = tt
All-nav_sections docs (s ∷ ss) = elim (Bool-cases (not (is_empty (nav_section docs s).pages))) [
  | inl some_pages ↦ rw some_pages (
    ((λ e. absurd (ground arith)), sort_pages-IsSorted _, (λ k. at_order-sort_pages k _)),
    All-nav_sections docs ss,
  )
  | inr empty ↦ rw empty (All-nav_sections docs ss)
]

-- Every section of the navigation has pages, sorted by their order, and for each order number they
-- are the documents of that section with that number, in the sequence in which they were loaded.
pub nav_sections-IsOrdered : (docs : List Doc) → All (IsOrdered docs) (nav_sections docs)
unfolding nav_sections
nav_sections-IsOrdered docs = All-nav_sections docs sections
