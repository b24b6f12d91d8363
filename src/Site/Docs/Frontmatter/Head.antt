-- ===== src/Site/Docs/Frontmatter/Head.antt =====
-- The head of a page, written by its fields.
use agentic_warden.Prelude.{
  ℕ, true, List, [], ◌∷◌, Text, units, text_eq, nat_eq, All, truthy, ◌≡◌, inl, inr, refl, ◌∙◌,
}
use agentic_warden.Prelude.{
  trim, drop_while_end, is_word, all_units, drop_while, is_space, is_terminator, Occurs,
}
use agentic_warden.View.{decimal}
use agentic_warden.View.Decimal.{decimal-IsNumber}
use agentic_warden.Site.Docs.Frontmatter.{Section, sections, Fields, read_fields, unquote}
use agentic_warden.Site.Docs.Frontmatter.Fences.{OneLine, IsHeadLine}
use agentic_warden.Site.Docs.Frontmatter.Lines.{
  Quote, quoted, Spells, field_line, quoted-Spells, digits-Spells, read_fields-field,
}

abbrev pub head_lines : Quote → Text → Section → ℕ → Text → List Text
head_lines q title section order description =
    field_line (units "title") (quoted q title)
    ∷ field_line (units "section") section.id
    ∷ field_line (units "order") (decimal order)
    ∷ field_line (units "description") (quoted q description)
    ∷ []

pub section-Spells : (s : Section) → Occurs s sections → Spells s.id s.id
unfolding sections units trim drop_while drop_while_end is_space is_terminator unquote
section-Spells s (inl e) = rw (e) (refl, refl, refl)
section-Spells s (inr (inl e)) = rw (e) (refl, refl, refl)
section-Spells s (inr (inr (inl e))) = rw (e) (refl, refl, refl)
section-Spells s (inr (inr (inr (inl e)))) = rw (e) (refl, refl, refl)
section-Spells s (inr (inr (inr (inr e)))) = absurd e

pub head_lines-IsHeadLine :
    (q : Quote) (title : Text) (section : Section) (order : ℕ) (description : Text)
    → Occurs section sections
    → OneLine title
    → OneLine description
    → All IsHeadLine (head_lines q title section order description)
unfolding units is_terminator
head_lines-IsHeadLine q title section order description listed one one' = (
  (refl, (quoted-Spells q title one).1),
  (
    (refl, (section-Spells section listed).1),
    (
      (refl, (digits-Spells (decimal order) (decimal-IsNumber order).1).1),
      ((refl, (quoted-Spells q description one').1), tt),
    ),
  ),
)

pub All-OneLine : (ws : List Text) → All IsHeadLine ws → All OneLine ws
All-OneLine [] h = tt
All-OneLine (w ∷ ws) ((p, one), h) = (one, All-OneLine ws h)

-- The fields that the head sets, the last first.
abbrev pub fields_of : Text → Section → ℕ → Text → Fields
fields_of title section order description =
    (units "description", description)
    ∷ (units "order", decimal order)
    ∷ (units "section", section.id)
    ∷ (units "title", title)
    ∷ []

abbrev IsKey : Text → Type 0
IsKey key = (truthy key ≡ true) × (all_units is_word key ≡ true)

head_keys-IsKey :
    IsKey (units "title")
    × IsKey (units "section")
    × IsKey (units "order")
    × IsKey (units "description")
unfolding units is_word
head_keys-IsKey = ((refl, refl), (refl, refl), (refl, refl), (refl, refl))

read_fields_end : (fm : Fields) → read_fields fm [] ≡ fm
unfolding read_fields
read_fields_end fm = refl

pub read_fields-head_lines :
    (q : Quote) (title : Text) (section : Section) (order : ℕ) (description : Text)
    → Occurs section sections
    → OneLine title
    → OneLine description
    → read_fields [] (head_lines q title section order description)
      ≡ fields_of title section order description
read_fields-head_lines q title section order description listed one one' =
    let title_line = field_line (units "title") (quoted q title) in
    let (a, b, c, d) = head_keys-IsKey in
    read_fields-field [] (units "title") (quoted q title) title _ a.0 a.1
      (quoted-Spells q title one)
    ∙ read_fields-field _ (units "section") section.id section.id _ b.0 b.1
        (section-Spells section listed)
    ∙ read_fields-field _ (units "order") (decimal order) (decimal order) _ c.0 c.1
        (digits-Spells (decimal order) (decimal-IsNumber order).1)
    ∙ read_fields-field _ (units "description") (quoted q description) description [] d.0 d.1
        (quoted-Spells q description one')
    ∙ read_fields_end _
