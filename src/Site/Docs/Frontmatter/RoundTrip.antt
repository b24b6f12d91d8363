-- ===== src/Site/Docs/Frontmatter/RoundTrip.antt =====
-- A page that is written by its fields is read as these fields.
use agentic_warden.Prelude.{
  ℕ, ◌+◌, ◌-◌, ◌*◌, true, some, List, [], ◌∷◌, ◌++◌, reverse, Text, units, text_beq, text_eq,
  nat_eq, ◌==◌, All, find?, truthy, join, ◌≡◌, inl, inr, refl, ◌∙◌,
}
use mathlib.Core.List.{reverse-append, reverse-reverse}
use agentic_warden.Prelude.{all_units, drop_while, is_digit, is_space, Occurs, ok}
use agentic_warden.View.{decimal}
use agentic_warden.View.Decimal.{value, value-decimal, decimal-IsNumber}
use agentic_warden.Site.Docs.Frontmatter.{
  Section, sections, slug_of, drop_title, get_field, Fields, read_fields, digits_value, check_doc,
  parse_doc,
}
use agentic_warden.Site.Docs.Frontmatter.Matching.{behind-append}
use agentic_warden.Site.Docs.Frontmatter.Fences.{
  LineBreak, break_text, OneLine, IsHeadLine, tail_text, split_frontmatter-lines,
}
use agentic_warden.Site.Docs.Frontmatter.Lines.{Quote, split_lines-join}
use agentic_warden.Site.Docs.Frontmatter.Body.{body_text, drop_title-body_text}
use agentic_warden.Site.Docs.Frontmatter.Head.{
  head_lines, head_lines-IsHeadLine, All-OneLine, fields_of, read_fields-head_lines,
}

slug_of_lem : (slug : Text) → slug_of (slug ++ units ".md") ≡ slug
unfolding slug_of
slug_of_lem slug =
    rw
      (
        slug_of,
        reverse-append slug (units ".md"),
        behind-append (reverse (units ".md")) (reverse slug),
      )
      (reverse-reverse slug)

digits_value-value : (n : ℕ) (t : Text) → digits_value n t ≡ value n t
unfolding digits_value value
digits_value-value n [] = refl
digits_value-value n (c ∷ t) = digits_value-value (n * 10 + (c - b'0')) t

abbrev pub page_text : LineBreak → List Text → Text → Text
page_text b lines body =
    units "---" ++ (break_text b ++ (join (break_text b) lines ++ tail_text b body))

find?-section : (s : Section) → Occurs s sections → find? (λ t. t.id == s.id) sections ≡ some s
unfolding sections units text_beq
find?-section s (inl e) = rw (e) refl
find?-section s (inr (inl e)) = rw (e) refl
find?-section s (inr (inr (inl e))) = rw (e) refl
find?-section s (inr (inr (inr (inl e)))) = rw (e) refl
find?-section s (inr (inr (inr (inr e)))) = absurd e

check_doc-fields :
    (file body : Text) (section : Section) (fm : Fields)
    → truthy (get_field fm (units "title")) ≡ true
    → truthy (get_field fm (units "section")) ≡ true
    → truthy (get_field fm (units "order")) ≡ true
    → truthy (get_field fm (units "description")) ≡ true
    → find? (λ t. t.id == get_field fm (units "section")) sections ≡ some section
    → all_units is_digit (get_field fm (units "order")) ≡ true
    → check_doc file fm body
      ≡ ok (record {
        slug = slug_of file;
        title = get_field fm (units "title");
        section = section.id;
        order = digits_value 0 (get_field fm (units "order"));
        description = get_field fm (units "description");
        body = drop_title body;
      })
unfolding check_doc
check_doc-fields file body section fm a b c d e f = rw (check_doc, a, b, c, d, e, f) refl

truthy-section : (s : Section) → Occurs s sections → truthy s.id ≡ true
unfolding sections units
truthy-section s (inl e) = rw (e) refl
truthy-section s (inr (inl e)) = rw (e) refl
truthy-section s (inr (inr (inl e))) = rw (e) refl
truthy-section s (inr (inr (inr (inl e)))) = rw (e) refl
truthy-section s (inr (inr (inr (inr e)))) = absurd e

check_doc-fields_of :
    (slug title : Text) (section : Section) (order : ℕ) (description body : Text)
    → Occurs section sections
    → truthy title ≡ true
    → truthy description ≡ true
    → check_doc (slug ++ units ".md") (fields_of title section order description) body
      ≡ ok (record {
        slug = slug;
        title = title;
        section = section.id;
        order = order;
        description = description;
        body = drop_title body;
      })
unfolding get_field units text_beq
check_doc-fields_of slug title section order description body listed h k =
    let (some_digit, all_digits) = decimal-IsNumber order in
    check_doc-fields (slug ++ units ".md") body section (fields_of title section order description)
      h (truthy-section section listed) some_digit k (find?-section section listed) all_digits
    ∙ rw (slug_of_lem slug, digits_value-value 0 (decimal order), value-decimal order) refl

-- The head of a page is read line by line, whatever the body is.
parse_doc-lines :
    (b : LineBreak) (file w : Text) (ws : List Text) (body : Text) (fm : Fields)
    → All IsHeadLine (w ∷ ws)
    → read_fields [] (w ∷ ws) ≡ fm
    → parse_doc file (page_text b (w ∷ ws) body) ≡ check_doc file fm body
unfolding parse_doc
parse_doc-lines b file w ws body fm h k =
    rw
      (
        parse_doc,
        split_frontmatter-lines b w ws body h,
        split_lines-join b w ws (All-OneLine (w ∷ ws) h),
        k,
      )
      refl

-- A page that is written by its fields is read as these fields: with either kind of line break, the
-- title and the description in either kind of quotes, whatever quotes, colons or white space they
-- hold, and any text as the body, the fence of the head included, without its heading. This takes a
-- section of the list, a title and a description that are not empty, no line break in these two or in
-- the heading, and a text that does not begin with white space.
pub parse_doc-page_text :
    (b : LineBreak) (q : Quote) (slug title heading description text : Text) (section : Section)
    (order : ℕ)
    → Occurs section sections
    → truthy title ≡ true
    → truthy description ≡ true
    → OneLine title
    → OneLine description
    → OneLine heading
    → drop_while is_space text ≡ text
    → parse_doc
        (slug ++ units ".md")
        (page_text b (head_lines q title section order description) (body_text b heading text))
      ≡ ok (record {
        slug = slug;
        title = title;
        section = section.id;
        order = order;
        description = description;
        body = text;
      })
parse_doc-page_text b q slug title heading description text section order listed h k one one' line
      flush =
    parse_doc-lines b (slug ++ units ".md") _ _ (body_text b heading text) _
      (head_lines-IsHeadLine q title section order description listed one one')
      (read_fields-head_lines q title section order description listed one one')
    ∙ check_doc-fields_of slug title section order description (body_text b heading text) listed h k
    ∙ rw (drop_title-body_text b heading text line flush) refl
