-- ===== src/Site/Docs/Frontmatter/Fences.antt =====
-- The head of a page between its fences, for both kinds of line breaks.
use agentic_warden.Prelude.{all_units}
use agentic_warden.Prelude.{
  ℕ, Bool, true, false, not, none, some, List, [], ◌∷◌, ◌++◌, append_assoc, append-nil, Text, units,
  text_eq, nat_eq, ◌==◌, All, join, ◌≡◌, refl, sym, ap, ◌∙◌, arith,
}
use agentic_warden.Prelude.{is_terminator}
use agentic_warden.Site.Docs.Frontmatter.{
  behind, behind_break, skip_break, behind_fence, until_fence, split_frontmatter,
}
use agentic_warden.Site.Docs.Frontmatter.Matching.{behind-append}

pub data LineBreak : Type 0 where
  line_feed carriage_return_line_feed : LineBreak

abbrev pub break_text : LineBreak → Text
break_text line_feed = 10 ∷ []
break_text carriage_return_line_feed = 13 ∷ 10 ∷ []

abbrev pub OneLine : Text → Type 0
OneLine t = all_units (λ c. not (is_terminator c)) t ≡ true

-- The text goes on with something other than a dash.
abbrev pub starts_plain : Text → Bool
starts_plain [] = false
starts_plain (c ∷ s) = not (b'-' == c)

pub behind_break-break : (b : LineBreak) (s : Text) → behind_break (break_text b ++ s) ≡ some s
unfolding behind_break
behind_break-break line_feed [] = refl
behind_break-break line_feed (c ∷ s) = refl
behind_break-break carriage_return_line_feed s = refl

behind_break-none : (c : ℕ) (s : Text) → is_terminator c ≡ false → behind_break (c ∷ s) ≡ none
unfolding behind_break is_terminator
behind_break-none c [] h = ground arith
behind_break-none c (d ∷ s) h = ground arith

behind_fence-unit : (c : ℕ) (s : Text) → is_terminator c ≡ false → behind_fence (c ∷ s) ≡ none
unfolding behind_fence
behind_fence-unit c s h = rw (behind_fence, behind_break-none c s h) refl

until_fence-unit :
    (c : ℕ) (s f r : Text)
    → behind_fence (c ∷ s) ≡ none
    → until_fence s ≡ some (f, r)
    → until_fence (c ∷ s) ≡ some (c ∷ f, r)
unfolding until_fence
until_fence-unit c s f r h k = rw (until_fence, h, k) refl

until_fence-line :
    (w s f r : Text)
    → OneLine w
    → until_fence s ≡ some (f, r)
    → until_fence (w ++ s) ≡ some (w ++ f, r)
until_fence-line [] s f r h k = k
until_fence-line (c ∷ w) s f r h k =
    until_fence-unit c (w ++ s) (w ++ f) r (behind_fence-unit c (w ++ s) (ground arith))
      (until_fence-line w s f r (ground arith) k)

behind-dashes : (t : Text) → starts_plain t ≡ true → behind (units "---") t ≡ none
unfolding behind units
behind-dashes [] h = refl
behind-dashes (c ∷ t) h = ground arith

behind_fence-plain :
    (b : LineBreak) (t : Text) → starts_plain t ≡ true → behind_fence (break_text b ++ t) ≡ none
unfolding behind_fence
behind_fence-plain b t h = rw (behind_fence, behind_break-break b t, behind-dashes t h) refl

until_fence-break :
    (b : LineBreak) (t f r : Text)
    → starts_plain t ≡ true
    → until_fence t ≡ some (f, r)
    → until_fence (break_text b ++ t) ≡ some (break_text b ++ f, r)
until_fence-break b t f r h k =
    elim b as (λ k. until_fence (break_text k ++ t) ≡ some (break_text k ++ f, r)) [
      | line_feed ↦ fed
      | carriage_return_line_feed ↦
          until_fence-unit 13 (10 ∷ t) (10 ∷ f) r (behind_fence-plain carriage_return_line_feed t h)
            fed
    ]
  where
    fed : until_fence (10 ∷ t) ≡ some (10 ∷ f, r)
    fed = until_fence-unit 10 t f r (behind_fence-plain line_feed t h) k

skip_break-break : (b : LineBreak) (s : Text) → skip_break (break_text b ++ s) ≡ s
unfolding skip_break
skip_break-break b s = rw (skip_break, behind_break-break b s) refl

-- The fence that ends the head, and the body.
abbrev pub tail_text : LineBreak → Text → Text
tail_text b body = break_text b ++ (units "---" ++ (break_text b ++ body))

behind_fence-end : (b : LineBreak) (body : Text) → behind_fence (tail_text b body) ≡ some body
unfolding behind_fence
behind_fence-end b body =
    rw
      (
        behind_fence,
        behind_break-break b (units "---" ++ (break_text b ++ body)),
        behind-append (units "---") (break_text b ++ body),
      )
      (ap some (skip_break-break b body))

until_fence-hit :
    (c : ℕ) (s r : Text) → behind_fence (c ∷ s) ≡ some r → until_fence (c ∷ s) ≡ some ([], r)
unfolding until_fence
until_fence-hit c s r h = rw (until_fence, h) refl

until_fence-end : (b : LineBreak) (body : Text) → until_fence (tail_text b body) ≡ some ([], body)
until_fence-end line_feed body = until_fence-hit 10 _ body (behind_fence-end line_feed body)
until_fence-end carriage_return_line_feed body =
    until_fence-hit 13 _ body (behind_fence-end carriage_return_line_feed body)

-- A line of the head.
abbrev pub IsHeadLine : Text → Type 0
IsHeadLine w = (starts_plain w ≡ true) × OneLine w

starts_plain-join :
    (sep w : Text) (ws : List Text) (t : Text)
    → starts_plain w ≡ true
    → starts_plain (join sep (w ∷ ws) ++ t) ≡ true
unfolding join
starts_plain-join sep [] ws t h = cc
starts_plain-join sep (c ∷ w) [] t h = h
starts_plain-join sep (c ∷ w) (v ∷ ws) t h = h

until_fence-lines :
    (b : LineBreak) (w : Text) (ws : List Text) (body : Text)
    → All IsHeadLine (w ∷ ws)
    → until_fence (join (break_text b) (w ∷ ws) ++ tail_text b body)
      ≡ some (join (break_text b) (w ∷ ws), body)
unfolding join
until_fence-lines b w [] body ((plain, one), rest) =
    until_fence-line w (tail_text b body) [] body one (until_fence-end b body)
    ∙ ap (λ f. some (f, body)) (append-nil w)
until_fence-lines b w (v ∷ ws) body ((plain, one), ((first, line), rest)) =
    let later = until_fence-lines b v ws body ((first, line), rest) in
    let more = join (break_text b) (v ∷ ws) in
    ap until_fence (
      append_assoc (w ++ break_text b) more (tail_text b body)
      ∙ append_assoc w (break_text b) (more ++ tail_text b body))
    ∙ until_fence-line w (break_text b ++ (more ++ tail_text b body)) (break_text b ++ more) body
        one
        (until_fence-break b (more ++ tail_text b body) more body
          (starts_plain-join (break_text b) v ws (tail_text b body) first) later)
    ∙ ap (λ f. some (f, body)) (sym (append_assoc w (break_text b) more))

-- The head of a page is found whatever the body is, fences in it included.
pub split_frontmatter-lines :
    (b : LineBreak) (w : Text) (ws : List Text) (body : Text)
    → All IsHeadLine (w ∷ ws)
    → split_frontmatter
        (units "---" ++ (break_text b ++ (join (break_text b) (w ∷ ws) ++ tail_text b body)))
      ≡ some (join (break_text b) (w ∷ ws), body)
unfolding split_frontmatter
split_frontmatter-lines b w ws body h =
    let rest = join (break_text b) (w ∷ ws) ++ tail_text b body in
    rw
      (
        split_frontmatter,
        behind-append (units "---") (break_text b ++ rest),
        behind_break-break b rest,
      )
      (until_fence-lines b w ws body h)
