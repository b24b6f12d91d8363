-- ===== src/Site/Docs/Frontmatter.antt =====
-- web/lib/docs.ts, `parseDoc` and `loadDocs`: each pattern is the function that it matches by.
pub mod Matching
pub mod Fences
pub mod Lines
pub mod Body
pub mod Head
pub mod RoundTrip
pub mod Loaded
use agentic_warden.Prelude.{
  ℕ, ◌+◌, ◌-◌, ◌*◌, Bool, true, not, ◌&&◌, ◌||◌, String, Option, none, some, List, [], ◌∷◌, ◌++◌,
  reverse, Text, units, text_eq, nat_eq, ◌==◌, if◌then◌else◌, find?, get_or, truthy, split, Result,
}
use agentic_warden.Prelude.{
  all_units, drop_while, take_while, is_word, is_terminator, is_digit, is_space, trim, ends_with,
  ok, throw,
}

pub record Section : Type 0 where
  pub id : Text
  pub label : Text

unfoldable pub sections : List Section
sections =
    record { id = units "get-started"; label = units "Get started" }
    ∷ record { id = units "security-review"; label = units "Security review" }
    ∷ record { id = units "guides"; label = units "Guides" }
    ∷ record { id = units "reference"; label = units "Reference" }
    ∷ []

pub record Doc : Type 0 where
  pub slug : Text
  pub title : Text
  pub section : Text
  pub order : ℕ
  pub description : Text
  pub body : Text

-- The rest behind a prefix.
unfoldable pub behind : Text → Text → Option Text
behind [] s = some s
behind (c ∷ p) [] = none
behind (c ∷ p) (d ∷ s) = if c == d then behind p s else none

-- `\r?\n`
unfoldable pub behind_break : Text → Option Text
behind_break [] = none
behind_break (c ∷ []) = if c == 10 then some [] else none
behind_break (c ∷ d ∷ s) =
    if c == 10 then some (d ∷ s) else if (c == 13) && (d == 10) then some s else none

-- `\r?\n?`
unfoldable pub skip_break : Text → Text
unfolding behind_break
skip_break s = elim (behind_break s) [
  | some r ↦ r
  | none ↦ elim (behind (units "\r") s) [ none ↦ s | some r ↦ r ]
]

-- `\r?\n---\r?\n?`
unfoldable pub behind_fence : Text → Option Text
unfolding skip_break behind
behind_fence s = elim (behind_break s) [
  | none ↦ none
  | some r ↦ elim (behind (units "---") r) [ none ↦ none | some t ↦ some (skip_break t) ]
]

-- `([\s\S]*?)` before the first closing fence, and what stands behind it.
unfoldable pub until_fence : Text → Option (Text × Text)
unfolding behind_fence
until_fence [] = none
until_fence (c ∷ s) =
    let later = until_fence s in
    elim (behind_fence (c ∷ s)) [
      | some rest ↦ some ([], rest)
      | none ↦ elim later [ none ↦ none | some (front, rest) ↦ some (c ∷ front, rest) ]
    ]

-- The whole pattern: the front matter and the body.
unfoldable pub split_frontmatter : Text → Option (Text × Text)
unfolding until_fence
split_frontmatter raw = elim (behind (units "---") raw) [
  | none ↦ none
  | some r ↦ elim (behind_break r) [ none ↦ none | some s ↦ until_fence s ]
]

-- One carriage return less at the end.
unfoldable pub chomp : Text → Text
chomp [] = []
chomp (c ∷ []) = if c == 13 then [] else c ∷ []
chomp (c ∷ d ∷ s) = c ∷ chomp (d ∷ s)

abbrev pub chomp_but_last : List Text → List Text
chomp_but_last [] = []
chomp_but_last (w ∷ []) = w ∷ []
chomp_but_last (w ∷ v ∷ ws) = chomp w ∷ chomp_but_last (v ∷ ws)

-- `text.split(/\r?\n/)`
unfoldable pub split_lines : Text → List Text
unfolding chomp split
split_lines s = chomp_but_last (split 10 s)

-- `/^(\w+):\s*(.*?)\s*$/`
unfoldable pub key_value : Text → Option (Text × Text)
unfolding take_while drop_while is_word is_terminator trim behind
key_value line =
    let key = take_while is_word line in
    elim (behind (units ":") (drop_while is_word line)) [
      | none ↦ none
      | some rest ↦
          if truthy key && all_units (λ c. not (is_terminator c)) (trim rest)
          then some (key, trim rest)
          else none
    ]

-- The middle of a text between two equal quotes: `(.*)\1$` behind the first quote `q`.
unfoldable pub before_quote : ℕ → Text → Option Text
before_quote q [] = none
before_quote q (c ∷ []) = if c == q then some [] else none
before_quote q (c ∷ d ∷ s) = elim (before_quote q (d ∷ s)) [ none ↦ none | some m ↦ some (c ∷ m) ]

-- `value.replace(/^(["'])(.*)\1$/, "$2")`
unfoldable pub unquote : Text → Text
unfolding before_quote
unquote [] = []
unquote (c ∷ s) = if (c == b'"') || (c == b'\'') then get_or (before_quote c s) (c ∷ s) else c ∷ s

abbrev pub Fields : Type 0
Fields = List (Text × Text)

-- `fm[key]`; the last assignment stands first.
unfoldable pub get_field : Fields → Text → Text
get_field [] key = []
get_field ((k, v) ∷ fm) key = if k == key then v else get_field fm key

unfoldable pub read_fields : Fields → List Text → Fields
unfolding key_value unquote
read_fields fm [] = fm
read_fields fm (line ∷ lines) =
    read_fields (elim (key_value line) [ none ↦ fm | some (k, v) ↦ (k, unquote v) ∷ fm ]) lines

abbrev pub required_fields : List String
required_fields = "title" ∷ "section" ∷ "order" ∷ "description" ∷ []

-- `Number(digits)`, without the rounding above 2^53.
unfoldable pub digits_value : ℕ → Text → ℕ
digits_value n [] = n
digits_value n (c ∷ s) = digits_value (n * 10 + (c - b'0')) s

-- `file.replace(/\.md$/, "")`
unfoldable pub slug_of : Text → Text
unfolding behind
slug_of file = elim (behind (reverse (units ".md")) (reverse file)) [
  | none ↦ file
  | some r ↦ reverse r
]

-- `body.replace(/^\s*# .*\r?\n\s*/, "")`
unfoldable pub drop_title : Text → Text
unfolding behind behind_break drop_while is_space is_terminator
drop_title body = elim (behind (units "# ") (drop_while is_space body)) [
  | none ↦ body
  | some r ↦ elim (behind_break (drop_while (λ c. not (is_terminator c)) r)) [
    | none ↦ body
    | some t ↦ drop_while is_space t
  ]
]

-- The checks on the fields, in the order of the code.
unfoldable pub check_doc : Text → Fields → Text → Result Text Doc
unfolding get_field digits_value slug_of drop_title sections
check_doc file fm body =
    elim (find? (λ key. not (truthy (get_field fm (units key)))) required_fields) [
      | some key ↦ throw (file ++ units ": frontmatter needs " ++ units key)
      | none ↦ elim (find? (λ s. s.id == get_field fm (units "section")) sections) [
        | none ↦
            throw
              (file ++ units ": unknown section \"" ++ get_field fm (units "section") ++ units "\"")
        | some s ↦
            if all_units is_digit (get_field fm (units "order"))
            then ok (record {
              slug = slug_of file;
              title = get_field fm (units "title");
              section = s.id;
              order = digits_value 0 (get_field fm (units "order"));
              description = get_field fm (units "description");
              body = drop_title body;
            })
            else throw (file ++ units ": order must be a number")
      ]
    ]

unfoldable pub parse_doc : Text → Text → Result Text Doc
unfolding split_frontmatter read_fields split_lines check_doc
parse_doc file raw = elim (split_frontmatter raw) [
  | none ↦ throw (file ++ units ": missing frontmatter")
  | some (front, body) ↦ check_doc file (read_fields [] (split_lines front)) body
]

-- `readdirSync` with the contents of the files; the first page that throws ends the loading.
unfoldable pub load_docs : List (Text × Text) → Result Text (List Doc)
unfolding parse_doc ends_with
load_docs [] = ok []
load_docs ((file, raw) ∷ files) =
    let rest = load_docs files in
    if ends_with file (units ".md")
    then elim (parse_doc file raw) [
      | throw e ↦ throw e
      | ok d ↦ elim rest [ throw e ↦ throw e | ok ds ↦ ok (d ∷ ds) ]
    ]
    else rest
