-- ===== src/Site/Docs/Headings.antt =====
-- web/lib/docs.ts: the ids of the headings of a page. `seen` is the map that a rendering starts
-- anew.
pub mod Ids
use agentic_warden.Prelude.{
  ℕ, zero, suc, ◌+◌, ◌-◌, ◌*◌, ◌≤◌, ◌<◌, Bool, true, false, not, ◌&&◌, ◌||◌, String, Option, none,
  some, List, [], ◌∷◌, ◌++◌, map, reverse, flat_map, append_assoc, append-nil, Text, units,
  text_beq, text_eq, nat_eq, Equality, ◌==◌, ==_iff, ==_refl, if◌then◌else◌, Bool-cases,
  Option-cases, All, All-append, All-reverse, length, filter, find?, is_empty, first?, last?,
  contains, is_some, get_or, truthy, or_else, split, join, ◌≡◌, ◌≢◌, ◌↔◌, ◌⊎◌, inl, inr, refl, sym,
  ap, ◌∙◌, subst, fun_ext, arith, ltb, leb, Result,
}
use agentic_warden.Platform.{Platform}
use agentic_warden.View.{decimal}

-- `seen.get(base) ?? 0`
unfoldable pub count_of : List (Text × ℕ) → Text → ℕ
count_of [] base = 0
count_of ((b, n) ∷ seen) base = if b == base then n else count_of seen base

-- `seen.set(base, n)`
unfoldable pub set_count : List (Text × ℕ) → Text → ℕ → List (Text × ℕ)
set_count [] base n = (base, n) ∷ []
set_count ((b, m) ∷ seen) base n =
    if b == base then (b, n) ∷ seen else (b, m) ∷ set_count seen base n

-- A heading behind the walk of the tokens: its depth, its rendered content and its text.
pub record Heading : Type 0 where
  pub depth : ℕ
  pub inner : Text
  pub text : Text

-- The page's title is the h1, so a heading of depth 1 becomes one of depth 2.
unfoldable pub walk_depth : ℕ → ℕ
walk_depth depth = if depth == 1 then 2 else depth

unfoldable pub base_id : Platform → Text → Text
base_id p text = map (λ c. if c == b' ' then b'-' else c) (p.keep_letters (p.to_lower text))

abbrev pub heading_id : Text → ℕ → Text
heading_id base zero = base
heading_id base (suc n) = base ++ units "-" ++ decimal (suc n)

-- The renderer of a heading: the new map and the text.
unfoldable pub render_heading : Platform → List (Text × ℕ) → Heading → List (Text × ℕ) × Text
unfolding walk_depth base_id count_of set_count
render_heading p seen h =
    let depth = walk_depth h.depth in
    let base = base_id p h.text in
    let n = count_of seen base in
    if not (depth == 2) && not (depth == 3)
    then (
      seen,
      units "<h"
          ++ decimal depth
          ++ units ">"
          ++ h.inner
          ++ units "</h"
          ++ decimal depth
          ++ units ">\n",
    )
    else (
      set_count seen base (n + 1),
      units "<h"
          ++ decimal depth
          ++ units " id=\""
          ++ heading_id base n
          ++ units "\">"
          ++ h.inner
          ++ units "</h"
          ++ decimal depth
          ++ units ">\n",
    )

-- The ids that the headings of depth 2 and 3 get, in the order of the page, from their bases.
unfoldable pub heading_ids : List (Text × ℕ) → List Text → List Text
unfolding count_of set_count
heading_ids seen [] = []
heading_ids seen (base ∷ bases) =
    heading_id base (count_of seen base)
    ∷ heading_ids (set_count seen base (count_of seen base + 1)) bases
