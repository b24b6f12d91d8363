-- ===== src/Site/Docs/Copy/Reading.antt =====
-- What a reader of the page gets back of the code: the renderer, the browser and the copy button
-- together.
use agentic_warden.Prelude.{
  ℕ, zero, suc, Bool, true, false, ◌&&◌, Option, none, some, List, [], ◌∷◌, ◌++◌, map, flat_map,
  Text, units, text_eq, nat_eq, ◌==◌, if◌then◌else◌, ◌≡◌, ◌≢◌, ◌⊎◌, inl, inr, Bool-cases, refl, ap,
  ◌∙◌, arith,
}
use agentic_warden.Site.Docs.Links.{escape_html}
use agentic_warden.Site.Docs.Links.Escaping.{entity, escape_html-flat_map}
use agentic_warden.Site.Docs.Copy.{
  CodeBlock, clicked, write_text, drop_last_feed, block_at, copy_step,
}

abbrev is_prefix : Text → Text → Bool
is_prefix [] s = true
is_prefix (c ∷ p) [] = false
is_prefix (c ∷ p) (d ∷ s) = c == d && is_prefix p s

-- How a browser reads the text between two tags: from left to right, each of the four character
-- references that the renderer writes as one unit. The number counts the units of a reference that are still to be skipped.
abbrev pub read_html : ℕ → Text → Text
read_html k [] = []
read_html (suc k) (c ∷ s) = read_html k s
read_html zero (c ∷ s) =
    if is_prefix (units "&amp;") (c ∷ s)
    then b'&' ∷ read_html 4 s
    else if is_prefix (units "&lt;") (c ∷ s)
    then b'<' ∷ read_html 3 s
    else if is_prefix (units "&gt;") (c ∷ s)
    then b'>' ∷ read_html 3 s
    else if is_prefix (units "&quot;") (c ∷ s)
    then b'"' ∷ read_html 5 s
    else c ∷ read_html 0 s

read_html-entity : (c : ℕ) (s : Text) → read_html 0 (entity c ++ s) ≡ c ∷ read_html 0 s
unfolding units
read_html-entity c s = ground arith

read_html-flat_map : (s : Text) → read_html 0 (flat_map entity s) ≡ s
unfolding flat_map
read_html-flat_map [] = refl
read_html-flat_map (c ∷ s) =
    read_html-entity c (flat_map entity s) ∙ ap (λ t. c ∷ t) (read_html-flat_map s)

-- A rendered code block with its button.
abbrev pub rendered : Text → CodeBlock
rendered code = record { content = some (read_html 0 (escape_html code)); label = units "Copy" }

abbrev pub code_of : ℕ → List Text → Option Text
code_of n [] = none
code_of zero (c ∷ cs) = some c
code_of (suc n) (c ∷ cs) = code_of n cs

block_at-rendered :
    (n : ℕ) (codes : List Text) (code : Text)
    → code_of n codes ≡ some code
    → block_at n (map rendered codes) ≡ some (rendered code)
block_at-rendered n [] code h = cc
block_at-rendered zero (c ∷ cs) code h = ground arith
block_at-rendered (suc n) (c ∷ cs) code h = block_at-rendered n cs code h

-- A text that does not end with a line feed.
abbrev pub NoFeedAtEnd : Text → Type 0
NoFeedAtEnd s = (u : Text) → s ≢ u ++ 10 ∷ []

-- The first text is the second one less one line feed at its end, or the same if it has none.
abbrev pub IsCopyOf : Text → Text → Type 0
IsCopyOf t code = (code ≡ t ++ 10 ∷ []) ⊎ ((t ≡ code) × NoFeedAtEnd code)

nil-NoFeedAtEnd : NoFeedAtEnd []
nil-NoFeedAtEnd [] h = cc
nil-NoFeedAtEnd (c ∷ u) h = cc

one-NoFeedAtEnd : (c : ℕ) → c ≢ 10 → NoFeedAtEnd (c ∷ [])
one-NoFeedAtEnd c h [] e = h (cc)
one-NoFeedAtEnd c h (d ∷ u) e = nil-NoFeedAtEnd u (cc)

cons-NoFeedAtEnd : (c d : ℕ) (s : Text) → NoFeedAtEnd (d ∷ s) → NoFeedAtEnd (c ∷ d ∷ s)
cons-NoFeedAtEnd c d s h [] e = cc
cons-NoFeedAtEnd c d s h (x ∷ u) e = h u (cc)

drop_last_feed-IsCopyOf : (s : Text) → IsCopyOf (drop_last_feed s) s
unfolding drop_last_feed
drop_last_feed-IsCopyOf [] = inr (refl, nil-NoFeedAtEnd)
drop_last_feed-IsCopyOf (c ∷ []) = elim (Bool-cases (c == 10)) [
  | inl feed ↦ inl (ground arith)
  | inr other ↦ inr (ground arith, one-NoFeedAtEnd c (ground arith))
]
drop_last_feed-IsCopyOf (c ∷ d ∷ s) = elim (drop_last_feed-IsCopyOf (d ∷ s)) [
  | inl e ↦ inl (ap (λ t. c ∷ t) e)
  | inr (e, none_left) ↦ inr (ap (λ t. c ∷ t) e, cons-NoFeedAtEnd c d s none_left)
]

-- Escaped text is read back as it was, and the button of a code block on a rendered page copies the
-- code of that block, whatever characters it holds, less one line feed at its end if it ends with
-- one. The page stays as it is until the clipboard has answered.
pub copy_step-rendered :
    (n : ℕ) (codes : List Text) (code : Text)
    → code_of n codes ≡ some code
    → (read_html 0 (escape_html code) ≡ code)
      × ((copied : Text) × (copy_step (map rendered codes) (clicked (some n))
            ≡ (map rendered codes, write_text n copied ∷ []))
          × IsCopyOf copied code)
unfolding copy_step
copy_step-rendered n codes code h =
    let same = ap (read_html 0) (escape_html-flat_map code) ∙ read_html-flat_map code in
    (
      same,
      (
        drop_last_feed code,
        rw (copy_step, block_at-rendered n codes code h)
            (ap (λ t. (map rendered codes, write_text n (drop_last_feed t) ∷ [])) same),
        drop_last_feed-IsCopyOf code,
      ),
    )
