-- ===== src/Examples/Markdown.antt =====
-- The rendering of a page and its copy buttons at a concrete page.
use agentic_warden.Prelude.{
  ℕ, ◌-◌, true, none, some, List, [], ◌∷◌, map, Text, units, text_eq, nat_eq, length, ◌≡◌, refl,
  ltb,
}
use agentic_warden.Platform.{Platform}
use agentic_warden.Site.Docs.Links.{escape_html}
use agentic_warden.Site.Docs.Headings.{heading_ids}
use agentic_warden.Site.Docs.Markdown.{Block, heading, code, html, render_markdown}
use agentic_warden.Site.Docs.Markdown.Ids.{bases_of, page_with_ids, render_markdown-ids}
use agentic_warden.Site.Docs.Copy.{clicked, write_text, drop_last_feed, copy_step}
use agentic_warden.Site.Docs.Copy.Reading.{read_html, rendered, IsCopyOf, copy_step-rendered}

abbrev codes : List Text
codes = units "awd serve\n" ∷ units "a < b && \"c\"\n" ∷ []

abbrev second_code : ℕ
second_code = 1

copy_step-rendered_example :
    (read_html 0 (escape_html (units "a < b && \"c\"\n")) ≡ units "a < b && \"c\"\n")
    × ((copied : Text) × (copy_step (map rendered codes) (clicked (some second_code))
          ≡ (map rendered codes, write_text second_code copied ∷ []))
        × IsCopyOf copied (units "a < b && \"c\"\n"))
copy_step-rendered_example = copy_step-rendered second_code codes (units "a < b && \"c\"\n") refl

copied_text : drop_last_feed (units "a\n\n") ≡ units "a\n"
unfolding drop_last_feed units
copied_text = refl

-- A platform whose texts are in lower case already.
abbrev plain : Platform
plain = record {
  Number = ℕ;
  of_ℕ = λ n. n;
  number = length;
  is_finite = λ n. true;
  sub = λ a b. a - b;
  lt = ltb;
  to_lower = λ t. t;
  keep_letters = λ t. t;
}

abbrev two_headings : Text → List Block
two_headings body =
    heading 1 (units "install") (record { text = some (units "install"); raw = [] } ∷ [])
    ∷ code body (units "sh")
    ∷ html (units "<p></p>")
    ∷ heading 2 (units "install") (record { text = none; raw = units "install" } ∷ [])
    ∷ []

render_markdown-ids_example :
    render_markdown plain two_headings (units "x")
    ≡ page_with_ids
        (heading_ids [] (bases_of plain (two_headings (units "x"))))
        (two_headings (units "x"))
render_markdown-ids_example = render_markdown-ids plain two_headings (units "x")
