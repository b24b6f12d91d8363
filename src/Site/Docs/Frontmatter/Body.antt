-- ===== src/Site/Docs/Frontmatter/Body.antt =====
-- The body of a page and the heading in front of it.
use agentic_warden.Prelude.{not, ◌++◌, Text, units, text_eq, nat_eq, ◌≡◌, refl}
use agentic_warden.Prelude.{drop_while, is_space, is_terminator}
use agentic_warden.Site.Docs.Frontmatter.{drop_title}
use agentic_warden.Site.Docs.Frontmatter.Matching.{behind-append, drop_while-append}
use agentic_warden.Site.Docs.Frontmatter.Fences.{
  LineBreak, line_feed, carriage_return_line_feed, break_text, OneLine, behind_break-break,
}

-- The title as a heading, and the text of the page.
abbrev pub body_text : LineBreak → Text → Text → Text
body_text b heading text =
    break_text b ++ (units "# " ++ (heading ++ (break_text b ++ (break_text b ++ text))))

skip_space :
    (b : LineBreak) (s : Text) → drop_while is_space (break_text b ++ s) ≡ drop_while is_space s
unfolding drop_while is_space
skip_space line_feed s = refl
skip_space carriage_return_line_feed s = refl

hash-stops : (s : Text) → drop_while is_space (units "# " ++ s) ≡ units "# " ++ s
unfolding drop_while is_space units
hash-stops s = refl

break-stops :
    (b : LineBreak) (s : Text)
    → drop_while (λ c. not (is_terminator c)) (break_text b ++ s) ≡ break_text b ++ s
unfolding drop_while is_terminator
break-stops line_feed s = refl
break-stops carriage_return_line_feed s = refl

pub drop_title-body_text :
    (b : LineBreak) (heading text : Text)
    → OneLine heading
    → drop_while is_space text ≡ text
    → drop_title (body_text b heading text) ≡ text
unfolding drop_title
drop_title-body_text b heading text one flush =
    let rest = break_text b ++ (break_text b ++ text) in
    rw
      (
        drop_title,
        skip_space b (units "# " ++ (heading ++ rest)),
        hash-stops (heading ++ rest),
        behind-append (units "# ") (heading ++ rest),
        drop_while-append (λ c. not (is_terminator c)) heading rest one
            (break-stops b (break_text b ++ text)),
        behind_break-break b (break_text b ++ text),
        skip_space b text,
      )
      flush
