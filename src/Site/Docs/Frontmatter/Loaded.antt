-- ===== src/Site/Docs/Frontmatter/Loaded.antt =====
-- What `loadDocs` of web/lib/docs.ts gives: its pages, or the page that it stops at.
use agentic_warden.Prelude.{
  Bool, true, false, not, Option, List, [], ◌∷◌, ◌++◌, map, Text, units, text_eq, nat_eq, ◌==◌,
  Bool-cases, Option-cases, All, find?, filter, truthy, ◌≡◌, ◌≢◌, ◌⊎◌, inl, inr, refl, sym, ap, ◌∙◌,
  arith, append_assoc, all_units, is_digit, String, Result,
}
use agentic_warden.Prelude.{Occurs, find?-Occurs, find?-none, ok, throw, ends_with}
use agentic_warden.Site.Docs.Frontmatter.{
  Section, sections, Doc, Fields, get_field, slug_of, parse_doc, check_doc, load_docs,
  required_fields, split_frontmatter, read_fields, split_lines,
}

-- The section of a document is one of the navigation's.
abbrev pub HasSection : Doc → Type 0
HasSection d = (s : Section) × Occurs s sections × (d.section ≡ s.id)

-- What the site needs of a page.
abbrev pub IsPage : Doc → Type 0
IsPage d = (d.title ≢ []) × (d.description ≢ []) × HasSection d

abbrev pub is_page_file : Text × Text → Bool
is_page_file (file, raw) = ends_with file (units ".md")

abbrev pub page_slug : Text × Text → Text
page_slug (file, raw) = slug_of file

Result-cases :
    {A : Type 0} (r : Result Text A) → ((e : Text) × (r ≡ throw e)) ⊎ ((a : A) × (r ≡ ok a))
Result-cases (throw e) = inl (e, refl)
Result-cases (ok a) = inr (a, refl)

-- A required field that is there is not empty.
filled : (t : Text) → not (truthy t) ≡ false → t ≢ []
filled [] h = ground arith
filled (c ∷ t) h = ground arith

-- A message that goes on with a colon behind the name of the file.
named :
    (file middle last rest : Text)
    → middle ≡ units ": " ++ rest
    → (file ++ middle) ++ last ≡ file ++ units ": " ++ (rest ++ last)
named file middle last rest h =
    append_assoc file middle last
    ∙ ap (λ t. file ++ (t ++ last)) h
    ∙ ap (λ t. file ++ t) (append_assoc (units ": ") rest last)
    ∙ sym (append_assoc file (units ": ") (rest ++ last))

module _ (file : Text) (fm : Fields) (body : Text) where
  abbrev section_of : Option Section
  section_of = find? (λ s. s.id == get_field fm (units "section")) sections

  abbrev missing_field : Option String
  missing_field = find? (λ key. not (truthy (get_field fm (units key)))) required_fields

  -- A document that passes the checks.
  check_doc-ok : (d : Doc) → check_doc file fm body ≡ ok d → IsPage d × (d.slug ≡ slug_of file)
  unfolding check_doc
  check_doc-ok d h = elim (Option-cases missing_field) [
    | inr (key, e) ↦ absurd (ground arith)
    | inl e ↦
        let (title, (_, (_, (description, _)))) =
          find?-none (λ key. not (truthy (get_field fm (units key)))) required_fields e in
        elim (Option-cases section_of) [
          | inl f ↦ absurd (ground arith)
          | inr (s, f) ↦ elim (Bool-cases (all_units is_digit (get_field fm (units "order")))) [
            | inr bad ↦ absurd (ground arith)
            | inl good ↦ (
              (
                (λ q. filled (get_field fm (units "title")) title (ground arith)),
                (λ q. filled (get_field fm (units "description")) description (ground arith)),
                (
                  s,
                  (find?-Occurs (λ t. t.id == get_field fm (units "section")) sections s f).0,
                  ground arith,
                ),
              ),
              ground arith,
            )
          ]
        ]
  ]

  -- A refusal names the file.
  check_doc-throw :
      (e : Text)
      → check_doc file fm body ≡ throw e
      → (reason : Text) × (e ≡ file ++ units ": " ++ reason)
  unfolding check_doc units
  check_doc-throw e h = elim (Option-cases missing_field) [
    | inr (key, m) ↦
        let said : e ≡ (file ++ units ": frontmatter needs ") ++ units key = ground arith in
        (
          units "frontmatter needs " ++ units key,
          said
              ∙ named file (units ": frontmatter needs ") (units key) (units "frontmatter needs ")
                  refl,
        )
    | inl m ↦ elim (Option-cases section_of) [
      | inl f ↦
          let given = get_field fm (units "section") in
          let said : e ≡ ((file ++ units ": unknown section \"") ++ given) ++ units "\"" =
            ground arith in
          (
            (units "unknown section \"" ++ given) ++ units "\"",
            said
                ∙ ap (λ t. t ++ units "\"")
                    (named file (units ": unknown section \"") given (units "unknown section \"")
                      refl)
                ∙ append_assoc (file ++ units ": ") (units "unknown section \"" ++ given)
                    (units "\""),
          )
      | inr (s, f) ↦ elim (Bool-cases (all_units is_digit (get_field fm (units "order")))) [
        | inl good ↦ absurd (ground arith)
        | inr bad ↦
            let said : e ≡ file ++ units ": order must be a number" = ground arith in
            (
              units "order must be a number",
              said ∙ sym (append_assoc file (units ": ") (units "order must be a number")),
            )
      ]
    ]
  ]

parse_doc-ok :
    (file raw : Text) (d : Doc) → parse_doc file raw ≡ ok d → IsPage d × (d.slug ≡ slug_of file)
unfolding parse_doc
parse_doc-ok file raw d h = elim (Option-cases (split_frontmatter raw)) [
  | inl e ↦ absurd (ground arith)
  | inr ((front, body), e) ↦
      check_doc-ok file (read_fields [] (split_lines front)) body d (ground arith)
]

parse_doc-throw :
    (file raw e : Text)
    → parse_doc file raw ≡ throw e
    → (reason : Text) × (e ≡ file ++ units ": " ++ reason)
unfolding parse_doc units
parse_doc-throw file raw e h = elim (Option-cases (split_frontmatter raw)) [
  | inl m ↦
      let said : e ≡ file ++ units ": missing frontmatter" = ground arith in
      (
        units "missing frontmatter",
        said ∙ sym (append_assoc file (units ": ") (units "missing frontmatter")),
      )
  | inr ((front, body), m) ↦
      check_doc-throw file (read_fields [] (split_lines front)) body e (ground arith)
]

-- If the pages load, then they are the files that end in .md, each once and in their order, and each
-- has a title, a description and one of the four sections.
pub load_docs-IsPage :
    (files : List (Text × Text)) (docs : List Doc)
    → load_docs files ≡ ok docs
    → All IsPage docs × (map (λ d. d.slug) docs ≡ map page_slug (filter is_page_file files))
unfolding load_docs
load_docs-IsPage [] docs h = let same : docs ≡ [] = ground arith in rw same (tt, refl)
load_docs-IsPage ((file, raw) ∷ files) docs h = elim (Bool-cases (ends_with file (units ".md"))) [
  | inr other ↦ rw other (load_docs-IsPage files docs (ground arith))
  | inl page ↦ elim (Result-cases (parse_doc file raw)) [
    | inl (e, p) ↦ absurd (ground arith)
    | inr (first, p) ↦ elim (Result-cases (load_docs files)) [
      | inl (e, q) ↦ absurd (ground arith)
      | inr (rest, q) ↦
          let same : docs ≡ first ∷ rest = ground arith in
          let (fine, slug) = parse_doc-ok file raw first p in
          let (all, slugs) = load_docs-IsPage files rest q in
          rw (same, page)
            (
              (fine, all),
              ap (λ s. s ∷ map (λ d. d.slug) rest) slug ∙ ap (λ ts. slug_of file ∷ ts) slugs,
            )
    ]
  ]
]

-- If the pages do not load, then the message names a file in front of a colon: it is the first .md
-- file whose page is refused, the files before it load, and the message is its own refusal.
pub load_docs-throw :
    (files : List (Text × Text)) (e : Text)
    → load_docs files ≡ throw e
    → (before : List (Text × Text)) × (after : List (Text × Text)) × (file : Text) × (raw : Text)
      × (reason : Text) × (docs : List Doc) × (files ≡ before ++ (file, raw) ∷ after)
      × (ends_with file (units ".md") ≡ true)
      × (load_docs before ≡ ok docs)
      × (parse_doc file raw ≡ throw e)
      × (e ≡ file ++ units ": " ++ reason)
unfolding load_docs
load_docs-throw [] e h = absurd (ground arith)
load_docs-throw ((file, raw) ∷ files) e h = elim (Bool-cases (ends_with file (units ".md"))) [
  | inr other ↦
      let (before, after, f, r, reason, docs, split_at, page, loads, refusal, said) =
        load_docs-throw files e (ground arith) in
      (
        (file, raw) ∷ before,
        after,
        f,
        r,
        reason,
        docs,
        ap (λ t. (file, raw) ∷ t) split_at,
        page,
        rw (other) loads,
        refusal,
        said,
      )
  | inl page ↦ elim (Result-cases (parse_doc file raw)) [
    | inl (m, p) ↦
        let same : m ≡ e = ground arith in
        let refusal = rw same at p in
        let (reason, said) = parse_doc-throw file raw e refusal in
        ([], files, file, raw, reason, [], refl, page, refl, refusal, said)
    | inr (first, p) ↦ elim (Result-cases (load_docs files)) [
      | inr (rest, q) ↦ absurd (ground arith)
      | inl (m, q) ↦
          let same : m ≡ e = ground arith in
          let (before, after, f, r, reason, docs, split_at, page', loads, refusal, said) =
            load_docs-throw files e (rw same at q) in
          (
            (file, raw) ∷ before,
            after,
            f,
            r,
            reason,
            first ∷ docs,
            ap (λ t. (file, raw) ∷ t) split_at,
            page',
            rw (page, p, loads) refl,
            refusal,
            said,
          )
    ]
  ]
]
