-- ===== src/Site/Docs/Markdown.antt =====
-- web/lib/docs.ts, what is given to the package marked, and `renderMarkdown`. The package is a
-- parameter: `parse` gives the blocks of a body behind the walk of its tokens, with everything but
-- headings and code rendered.
pub mod Ids
use agentic_warden.Prelude.{
  ℕ, zero, suc, ◌+◌, ◌-◌, ◌*◌, ◌≤◌, ◌<◌, Bool, true, false, not, ◌&&◌, ◌||◌, String, Option, none,
  some, List, [], ◌∷◌, ◌++◌, map, reverse, flat_map, append_assoc, append-nil, Text, units,
  text_beq, text_eq, nat_eq, Equality, ◌==◌, ==_iff, ==_refl, if◌then◌else◌, Bool-cases,
  Option-cases, All, All-append, All-reverse, length, filter, find?, is_empty, first?, last?,
  contains, is_some, get_or, truthy, or_else, split, join, ◌≡◌, ◌≢◌, ◌↔◌, ◌⊎◌, inl, inr, refl, sym,
  ap, ◌∙◌, subst, fun_ext, arith, ltb, leb, Result,
}
use agentic_warden.Platform.{Platform}
use agentic_warden.Site.Docs.Links.{rewrite_href, render_code}
use agentic_warden.Site.Docs.Headings.{Heading, walk_depth, render_heading}

pub data Token : Type 0 where
  link_token image_token : Text → Token
  heading_token : ℕ → Token
  other_token : Token

-- `walkTokens` on one token.
unfoldable pub walk_token : Token → Token
unfolding rewrite_href walk_depth
walk_token (link_token href) = link_token (rewrite_href href)
walk_token (image_token href) = image_token (rewrite_href href)
walk_token (heading_token depth) = heading_token (walk_depth depth)
walk_token other_token = other_token

-- A token inside a heading: its text, if it has one, and its source.
pub record Inline : Type 0 where
  pub text : Option Text
  pub raw : Text

unfoldable pub heading_text : List Inline → Text
heading_text tokens = flat_map (λ t. get_or t.text t.raw) tokens

pub data Block : Type 0 where
  heading : ℕ → Text → List Inline → Block
  -- the text and the language
  code : Text → Text → Block
  html : Text → Block

abbrev pub heading_of : ℕ → Text → List Inline → Heading
heading_of depth inner tokens = record { depth = depth; inner = inner; text = heading_text tokens }

-- The blocks in their order, with the headings that were seen.
unfoldable pub render_blocks : Platform → List (Text × ℕ) → List Block → Text
unfolding heading_text render_heading render_code
render_blocks p seen [] = []
render_blocks p seen (heading depth inner tokens ∷ bs) =
    let r = render_heading p seen (heading_of depth inner tokens) in r.1 ++ render_blocks p r.0 bs
render_blocks p seen (code text lang ∷ bs) = render_code text lang ++ render_blocks p seen bs
render_blocks p seen (html text ∷ bs) = text ++ render_blocks p seen bs

-- `renderMarkdown`: each page starts with an empty map.
unfoldable pub render_markdown : Platform → (Text → List Block) → Text → Text
unfolding render_blocks
render_markdown p parse body = render_blocks p [] (parse body)
