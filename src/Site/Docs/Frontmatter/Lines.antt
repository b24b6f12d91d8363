-- ===== src/Site/Docs/Frontmatter/Lines.antt =====
-- The lines of the head of a page and what a field spells.
use agentic_warden.Prelude.{all_units}
use agentic_warden.Prelude.{
  ℕ, true, not, some, List, [], ◌∷◌, ◌++◌, append_assoc, Text, units, text_eq, nat_eq, ◌==◌,
  ==_refl, All, truthy, split, join, ◌≡◌, refl, sym, ap, ◌∙◌, arith,
}
use agentic_warden.Prelude.{
  take_while, drop_while, trim, is_word, is_digit, is_space, is_terminator,
}
use agentic_warden.Site.Docs.Frontmatter.{
  behind, chomp, chomp_but_last, split_lines, key_value, before_quote, unquote, Fields, read_fields,
}
use agentic_warden.Site.Docs.Frontmatter.Matching.{
  take_while-append, drop_while-append, all_units-append, all_units-weaken, trim-between,
  trim-plain,
}
use agentic_warden.Site.Docs.Frontmatter.Fences.{
  LineBreak, line_feed, carriage_return_line_feed, break_text, OneLine,
}

-- A line as it stands between two line feeds.
abbrev ended : LineBreak → Text → Text
ended line_feed w = w
ended carriage_return_line_feed w = w ++ 13 ∷ []

chomp-ended : (b : LineBreak) (w : Text) → OneLine w → chomp (ended b w) ≡ w
unfolding chomp is_terminator
chomp-ended line_feed [] h = refl
chomp-ended line_feed (c ∷ []) h = ground arith
chomp-ended line_feed (c ∷ d ∷ w) h = ap (λ t. c ∷ t) (chomp-ended line_feed (d ∷ w) (ground arith))
chomp-ended carriage_return_line_feed [] h = refl
chomp-ended carriage_return_line_feed (c ∷ []) h = refl
chomp-ended carriage_return_line_feed (c ∷ d ∷ w) h =
    ap (λ t. c ∷ t) (chomp-ended carriage_return_line_feed (d ∷ w) (ground arith))

abbrev NoFeed : Text → Type 0
NoFeed t = all_units (λ c. not (c == 10)) t ≡ true

split-feed : (w s : Text) → NoFeed w → split 10 (w ++ 10 ∷ s) ≡ w ∷ split 10 s
unfolding split
split-feed [] s h = refl
split-feed (c ∷ w) s h = ground (arith, split-feed w s)

split-none : (w : Text) → NoFeed w → split 10 w ≡ w ∷ []
unfolding split
split-none [] h = refl
split-none (c ∷ w) h = ground (arith, split-none w)

OneLine-NoFeed : (w : Text) → OneLine w → NoFeed w
unfolding is_terminator
OneLine-NoFeed w h =
    all_units-weaken (λ c. not (is_terminator c)) (λ c. not (c == 10)) w (λ c k. ground arith) h

split-ended :
    (b : LineBreak) (w s : Text)
    → OneLine w
    → split 10 (w ++ break_text b ++ s) ≡ ended b w ∷ split 10 s
split-ended line_feed w s h =
    ap (split 10) (append_assoc w (10 ∷ []) s) ∙ split-feed w s (OneLine-NoFeed w h)
split-ended carriage_return_line_feed w s h =
    ap (split 10) (append_assoc w (13 ∷ 10 ∷ []) s ∙ sym (append_assoc w (13 ∷ []) (10 ∷ s)))
    ∙ split-feed (w ++ 13 ∷ []) s
        (all_units-append (λ c. not (c == 10)) w (13 ∷ []) (OneLine-NoFeed w h) refl)

abbrev raw_lines : LineBreak → Text → List Text → List Text
raw_lines b w [] = w ∷ []
raw_lines b w (v ∷ ws) = ended b w ∷ raw_lines b v ws

split-join :
    (b : LineBreak) (w : Text) (ws : List Text)
    → All OneLine (w ∷ ws)
    → split 10 (join (break_text b) (w ∷ ws)) ≡ raw_lines b w ws
unfolding join
split-join b w [] (h, k) = split-none w (OneLine-NoFeed w h)
split-join b w (v ∷ ws) (h, k) =
    split-ended b w (join (break_text b) (v ∷ ws)) h ∙ ap (λ t. ended b w ∷ t) (split-join b v ws k)

chomp_but_last-raw :
    (b : LineBreak) (w : Text) (ws : List Text)
    → All OneLine (w ∷ ws)
    → chomp_but_last (raw_lines b w ws) ≡ w ∷ ws
chomp_but_last-raw b w [] h = refl
chomp_but_last-raw b w (v ∷ []) (h, k) = ap (λ t. t ∷ v ∷ []) (chomp-ended b w h)
chomp_but_last-raw b w (v ∷ u ∷ ws) (h, k) =
    ap (λ t. t ∷ chomp_but_last (raw_lines b v (u ∷ ws))) (chomp-ended b w h)
    ∙ ap (λ t. w ∷ t) (chomp_but_last-raw b v (u ∷ ws) k)

-- Lines that are put together come apart again.
pub split_lines-join :
    (b : LineBreak) (w : Text) (ws : List Text)
    → All OneLine (w ∷ ws)
    → split_lines (join (break_text b) (w ∷ ws)) ≡ w ∷ ws
unfolding split_lines
split_lines-join b w ws h = ap chomp_but_last (split-join b w ws h) ∙ chomp_but_last-raw b w ws h

pub data Quote : Type 0 where
  single double : Quote

abbrev pub quote_unit : Quote → ℕ
quote_unit single = b'\''
quote_unit double = b'"'

abbrev pub quoted : Quote → Text → Text
quoted q v = quote_unit q ∷ v ++ quote_unit q ∷ []

-- What stands behind the colon spells a value.
abbrev pub Spells : Text → Text → Type 0
Spells raw value = (trim raw ≡ raw) × OneLine raw × (unquote raw ≡ value)

before_quote-end : (q : ℕ) (v : Text) → before_quote q (v ++ q ∷ []) ≡ some v
unfolding before_quote
before_quote-end q [] = rw (==_refl q) refl
before_quote-end q (c ∷ []) = rw (before_quote, ==_refl q) refl
before_quote-end q (c ∷ d ∷ v) = rw (before_quote, before_quote-end q (d ∷ v)) refl

unquote-quoted : (q : Quote) (v : Text) → unquote (quoted q v) ≡ v
unfolding unquote
unquote-quoted single v = rw (before_quote-end b'\'' v) refl
unquote-quoted double v = rw (before_quote-end b'"' v) refl

-- A text without line breaks is spelled in quotes, whatever white space or quotes it holds.
pub quoted-Spells : (q : Quote) (v : Text) → OneLine v → Spells (quoted q v) v
unfolding is_space is_terminator
quoted-Spells single v h = (
  trim-between b'\'' b'\'' v refl refl,
  all_units-append (λ c. not (is_terminator c)) v (b'\'' ∷ []) h refl,
  unquote-quoted single v,
)
quoted-Spells double v h = (
  trim-between b'"' b'"' v refl refl,
  all_units-append (λ c. not (is_terminator c)) v (b'"' ∷ []) h refl,
  unquote-quoted double v,
)

unquote-digits : (v : Text) → all_units is_digit v ≡ true → unquote v ≡ v
unfolding unquote
unquote-digits [] h = refl
unquote-digits (c ∷ v) h = ground arith

-- A number spells itself.
pub digits-Spells : (v : Text) → all_units is_digit v ≡ true → Spells v v
unfolding is_space is_terminator
digits-Spells v h = (
  trim-plain v (all_units-weaken is_digit (λ c. not (is_space c)) v (λ c k. ground arith) h),
  all_units-weaken is_digit (λ c. not (is_terminator c)) v (λ c k. ground arith) h,
  unquote-digits v h,
)

abbrev pub field_line : Text → Text → Text
field_line key raw = key ++ (units ": " ++ raw)

trim-space : (raw : Text) → trim (b' ' ∷ raw) ≡ trim raw
unfolding trim drop_while is_space
trim-space raw = refl

colon-stops :
    (raw : Text)
    → (take_while is_word (units ": " ++ raw) ≡ [])
      × (drop_while is_word (units ": " ++ raw) ≡ units ": " ++ raw)
unfolding take_while drop_while is_word units
colon-stops raw = (refl, refl)

behind-colon : (raw : Text) → behind (units ":") (units ": " ++ raw) ≡ some (b' ' ∷ raw)
unfolding behind units
behind-colon raw = refl

key_value-parts :
    (line key rest raw : Text)
    → take_while is_word line ≡ key
    → behind (units ":") (drop_while is_word line) ≡ some rest
    → trim rest ≡ raw
    → truthy key ≡ true
    → OneLine raw
    → key_value line ≡ some (key, raw)
unfolding key_value
key_value-parts line key rest raw a b c d e = ground (arith, a, b, c, d, e)

key_value-field :
    (key raw : Text)
    → truthy key ≡ true
    → all_units is_word key ≡ true
    → trim raw ≡ raw
    → OneLine raw
    → key_value (field_line key raw) ≡ some (key, raw)
key_value-field key raw some_key word trimmed one =
    let (stops, kept) = colon-stops raw in
    key_value-parts (field_line key raw) key (b' ' ∷ raw) raw
      (take_while-append is_word key (units ": " ++ raw) word stops)
      (ap (behind (units ":")) (drop_while-append is_word key (units ": " ++ raw) word kept)
        ∙ behind-colon raw)
      (trim-space raw ∙ trimmed) some_key one

-- One line of the head sets its field.
pub read_fields-field :
    (fm : Fields) (key raw value : Text) (lines : List Text)
    → truthy key ≡ true
    → all_units is_word key ≡ true
    → Spells raw value
    → read_fields fm (field_line key raw ∷ lines) ≡ read_fields ((key, value) ∷ fm) lines
unfolding read_fields
read_fields-field fm key raw value lines some_key word (trimmed, one, spelled) =
    rw (read_fields, key_value-field key raw some_key word trimmed one, spelled) refl
