-- ===== src/Site/Docs/Markdown/Ids.antt =====
-- The rendering of a page with its map of headings, and the ids of the headings without one.
use agentic_warden.Prelude.{
  ℕ, ◌+◌, Bool, true, false, not, ◌&&◌, ◌||◌, List, [], ◌∷◌, ◌++◌, Text, units, text_eq, nat_eq,
  ◌==◌, if◌then◌else◌, Bool-cases, ◌≡◌, inl, inr, refl, ap, ◌∙◌, arith,
}
use agentic_warden.Platform.{Platform}
use agentic_warden.View.{decimal}
use agentic_warden.Site.Docs.Links.{render_code}
use agentic_warden.Site.Docs.Headings.{
  walk_depth, base_id, count_of, set_count, heading_id, render_heading, heading_ids,
}
use agentic_warden.Site.Docs.Markdown.{
  Inline, Block, heading, code, html, heading_text, heading_of, render_blocks, render_markdown,
}

-- The headings of depth 2 and 3 have ids; the title of the page, of depth 1, becomes one of depth 2.
abbrev has_id : ℕ → Bool
has_id depth = walk_depth depth == 2 || walk_depth depth == 3

-- The bases of the ids, in the order of the page.
abbrev pub bases_of : Platform → List Block → List Text
bases_of p [] = []
bases_of p (heading depth inner tokens ∷ bs) =
    let rest = bases_of p bs in
    if has_id depth then base_id p (heading_text tokens) ∷ rest else rest
bases_of p (code text lang ∷ bs) = bases_of p bs
bases_of p (html text ∷ bs) = bases_of p bs

abbrev with_id : ℕ → Text → Text → Text
with_id depth inner id =
    units "<h"
    ++ decimal (walk_depth depth)
    ++ units " id=\""
    ++ id
    ++ units "\">"
    ++ inner
    ++ units "</h"
    ++ decimal (walk_depth depth)
    ++ units ">\n"

abbrev without_id : ℕ → Text → Text
without_id depth inner =
    units "<h"
    ++ decimal (walk_depth depth)
    ++ units ">"
    ++ inner
    ++ units "</h"
    ++ decimal (walk_depth depth)
    ++ units ">\n"

-- The page, with the ids for its headings in their order.
abbrev pub page_with_ids : List Text → List Block → Text
page_with_ids ids [] = []
page_with_ids ids (code text lang ∷ bs) = render_code text lang ++ page_with_ids ids bs
page_with_ids ids (html text ∷ bs) = text ++ page_with_ids ids bs
page_with_ids [] (heading depth inner tokens ∷ bs) = without_id depth inner ++ page_with_ids [] bs
page_with_ids (id ∷ ids) (heading depth inner tokens ∷ bs) =
    let used = page_with_ids ids bs in
    let kept = page_with_ids (id ∷ ids) bs in
    if has_id depth then with_id depth inner id ++ used else without_id depth inner ++ kept

render_heading-id :
    (p : Platform) (seen : List (Text × ℕ)) (depth : ℕ) (inner : Text) (tokens : List Inline)
    → has_id depth ≡ true
    → let base = base_id p (heading_text tokens) in
      render_heading p seen (heading_of depth inner tokens) ≡ (
        set_count seen base (count_of seen base + 1),
        with_id depth inner (heading_id base (count_of seen base)),
      )
unfolding render_heading
render_heading-id p seen depth inner tokens h =
    let off : (not (walk_depth depth == 2) && not (walk_depth depth == 3)) ≡ false = ground arith in
    rw (render_heading, off) refl

render_heading-none :
    (p : Platform) (seen : List (Text × ℕ)) (depth : ℕ) (inner : Text) (tokens : List Inline)
    → has_id depth ≡ false
    → render_heading p seen (heading_of depth inner tokens) ≡ (seen, without_id depth inner)
unfolding render_heading
render_heading-none p seen depth inner tokens h =
    let on : (not (walk_depth depth == 2) && not (walk_depth depth == 3)) ≡ true = ground arith in
    rw (render_heading, on) refl

plain :
    (ids : List Text) (depth : ℕ) (inner : Text) (tokens : List Inline) (bs : List Block)
    → has_id depth ≡ false
    → without_id depth inner ++ page_with_ids ids bs
      ≡ page_with_ids ids (heading depth inner tokens ∷ bs)
plain [] depth inner tokens bs h = refl
plain (id ∷ ids) depth inner tokens bs h = rw (h) refl

numbered_page :
    (id : Text) (ids : List Text) (depth : ℕ) (inner : Text) (tokens : List Inline)
    (bs : List Block)
    → has_id depth ≡ true
    → with_id depth inner id ++ page_with_ids ids bs
      ≡ page_with_ids (id ∷ ids) (heading depth inner tokens ∷ bs)
numbered_page id ids depth inner tokens bs h = rw (h) refl

render_blocks-ids :
    (p : Platform) (seen : List (Text × ℕ)) (bs : List Block)
    → render_blocks p seen bs ≡ page_with_ids (heading_ids seen (bases_of p bs)) bs
unfolding render_blocks heading_ids
render_blocks-ids p seen [] = refl
render_blocks-ids p seen (code text lang ∷ bs) =
    ap (λ t. render_code text lang ++ t) (render_blocks-ids p seen bs)
render_blocks-ids p seen (html text ∷ bs) = ap (λ t. text ++ t) (render_blocks-ids p seen bs)
render_blocks-ids p seen (heading depth inner tokens ∷ bs) = elim (Bool-cases (has_id depth)) [
  | inl numbered ↦
      let base = base_id p (heading_text tokens) in
      let n = count_of seen base in
      let first : base ∷ bases_of p bs ≡ bases_of p (heading depth inner tokens ∷ bs) =
        rw (numbered) refl in
      ap (λ r. r.1 ++ render_blocks p r.0 bs) (render_heading-id p seen depth inner tokens numbered)
      ∙ ap (λ t. with_id depth inner (heading_id base n) ++ t)
          (render_blocks-ids p (set_count seen base (n + 1)) bs)
      ∙ numbered_page (heading_id base n)
          (heading_ids (set_count seen base (n + 1)) (bases_of p bs)) depth inner tokens bs numbered
      ∙ ap (λ b. page_with_ids (heading_ids seen b) (heading depth inner tokens ∷ bs)) first
  | inr bare ↦
      ap (λ r. r.1 ++ render_blocks p r.0 bs) (render_heading-none p seen depth inner tokens bare)
      ∙ ap (λ t. without_id depth inner ++ t) (render_blocks-ids p seen bs)
      ∙ plain (heading_ids seen (bases_of p bs)) depth inner tokens bs bare
      ∙ rw (bare) refl
]

-- The rendering of a page, which counts its headings in a map as it goes, gives the blocks in their
-- order with the ids that the headings get from their texts alone: those of other blocks, of headings
-- of other depths and of other pages have no part in them.
pub render_markdown-ids :
    (p : Platform) (parse : Text → List Block) (body : Text)
    → render_markdown p parse body
      ≡ page_with_ids (heading_ids [] (bases_of p (parse body))) (parse body)
unfolding render_markdown
render_markdown-ids p parse body = render_blocks-ids p [] (parse body)
