-- ===== src/Examples/Frontmatter.antt =====
-- The head of a documentation page at a concrete page.
use agentic_warden.Prelude.{
  true, List, [], ◌∷◌, ◌++◌, map, filter, All, Text, units, text_beq, text_eq, nat_eq, ◌≡◌, inl,
  inr, refl,
}
use agentic_warden.Prelude.{ok, throw, ends_with, drop_while, is_space, is_terminator}
use agentic_warden.Site.Docs.Frontmatter.{Section, sections, slug_of, Doc, parse_doc, load_docs}
use agentic_warden.Site.Docs.Frontmatter.Loaded.{
  IsPage, page_slug, is_page_file, load_docs-IsPage, load_docs-throw,
}
use agentic_warden.Site.Docs.Frontmatter.Fences.{carriage_return_line_feed}
use agentic_warden.Site.Docs.Frontmatter.Lines.{double}
use agentic_warden.Site.Docs.Frontmatter.Body.{body_text}
use agentic_warden.Site.Docs.Frontmatter.Head.{head_lines}
use agentic_warden.Site.Docs.Frontmatter.RoundTrip.{page_text, parse_doc-page_text}

abbrev guides : Section
guides = record { id = units "guides"; label = units "Guides" }

abbrev fenced_text : Text
fenced_text = units "before\r\n---\r\nafter"

parse_doc-page_text_example :
    parse_doc (units "a" ++ units ".md") (
      page_text carriage_return_line_feed
        (head_lines double (units "Fix: \"a\" #12 ") guides 30 (units " it's"))
        (body_text carriage_return_line_feed (units "Fix") fenced_text))
    ≡ ok (record {
      slug = units "a";
      title = units "Fix: \"a\" #12 ";
      section = units "guides";
      order = 30;
      description = units " it's";
      body = fenced_text;
    })
unfolding units sections drop_while is_space is_terminator
parse_doc-page_text_example =
    parse_doc-page_text carriage_return_line_feed double (units "a") (units "Fix: \"a\" #12 ")
      (units "Fix") (units " it's") fenced_text guides 30 (inr (inr (inl refl))) refl refl refl refl
      refl refl

abbrev page_of_a : Text
page_of_a = units "---\ntitle: A\nsection: guides\norder: 3\ndescription: D\n---\ntext"

abbrev doc_of_a : Doc
doc_of_a = record {
  slug = units "a";
  title = units "A";
  section = units "guides";
  order = 3;
  description = units "D";
  body = units "text";
}

frontmatter_code : Unit {0}
unfolding units text_beq load_docs sections slug_of
frontmatter_code = tt

load_docs-IsPage_example :
    All IsPage (doc_of_a ∷ [])
    × (map (λ d. d.slug) (doc_of_a ∷ [])
        ≡ map page_slug
            (filter is_page_file ((units "a.md", page_of_a) ∷ (units "notes", []) ∷ [])))
unfolding frontmatter_code
load_docs-IsPage_example =
    load_docs-IsPage ((units "a.md", page_of_a) ∷ (units "notes", []) ∷ []) (doc_of_a ∷ []) refl

abbrev one_bad : List (Text × Text)
one_bad = (units "a.md", page_of_a) ∷ (units "b.md", []) ∷ (units "c.md", []) ∷ []

load_docs-throw_example :
    (before : List (Text × Text)) × (after : List (Text × Text)) × (file : Text) × (raw : Text)
    × (reason : Text) × (docs : List Doc) × (one_bad ≡ before ++ (file, raw) ∷ after)
    × (ends_with file (units ".md") ≡ true)
    × (load_docs before ≡ ok docs)
    × (parse_doc file raw ≡ throw (units "b.md: missing frontmatter"))
    × (units "b.md: missing frontmatter" ≡ file ++ units ": " ++ reason)
unfolding frontmatter_code
load_docs-throw_example = load_docs-throw one_bad (units "b.md: missing frontmatter") refl
