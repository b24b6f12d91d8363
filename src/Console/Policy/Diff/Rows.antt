-- ===== src/Console/Policy/Diff/Rows.antt =====
-- The rows of a difference spell both texts.
use agentic_warden.Prelude.{
  ℕ, Bool, false, not, ◌&&◌, ◌||◌, units, List, [], ◌∷◌, ◌++◌, map, flat_map, append_assoc,
  append-nil, Text, text_eq, nat_eq, ◌==◌, if◌then◌else◌, Bool-cases, All, split, ◌≡◌, ◌≢◌, inl,
  inr, refl, sym, ap, ◌∙◌, arith,
}
use agentic_warden.Prelude.{split, widen}
use agentic_warden.Console.Policy.Diff.{
  Part, drop_break, Mark, mark_of, mark_text, mark_class, part_rows, diff_rows, line_diff,
}
use agentic_warden.View.{attr, start, text, finish, Html, el, show}

-- The text of the lines, each with its line feed.
abbrev pub unlines : List Text → Text
unlines [] = []
unlines (l ∷ ls) = l ++ 10 ∷ unlines ls

-- A text that ends with a line feed.
abbrev pub EndsInBreak : Text → Type 0
EndsInBreak [] = ⊥
EndsInBreak (c ∷ []) = c ≡ 10
EndsInBreak (c ∷ d ∷ s) = EndsInBreak (d ∷ s)

unlines-widen : (c : ℕ) (ws : List Text) → ws ≢ [] → unlines (widen c ws) ≡ c ∷ unlines ws
unlines-widen c [] h = absurd (h refl)
unlines-widen c (w ∷ ws) h = refl

split-ne-nil : (s : Text) → split 10 s ≢ []
unfolding split
split-ne-nil [] h = cc
split-ne-nil (c ∷ s) h = elim (Bool-cases (c == 10)) [
  | inl e ↦ ground arith
  | inr e ↦ widen-ne-nil c (split 10 s) (ground arith)
]
  where
    widen-ne-nil : (d : ℕ) (ws : List Text) → widen d ws ≡ [] → ⊥
    widen-ne-nil d [] p = cc
    widen-ne-nil d (w ∷ ws) p = cc

unlines-split : (s : Text) → unlines (split 10 s) ≡ s ++ 10 ∷ []
unfolding split
unlines-split [] = refl
unlines-split (c ∷ s) = elim (Bool-cases (c == 10)) [
  | inl e ↦ ground (arith, unlines-split s)
  | inr e ↦ ground (arith, unlines-split s, unlines-widen c (split 10 s) (split-ne-nil s))
]

drop_break-append : (s : Text) → EndsInBreak s → drop_break s ++ 10 ∷ [] ≡ s
unfolding drop_break
drop_break-append [] h = absurd h
drop_break-append (c ∷ []) h = ground arith
drop_break-append (c ∷ d ∷ s) h = ap (λ t. c ∷ t) (drop_break-append (d ∷ s) h)

-- The texts of a page.
abbrev pub texts_of : {E : Type 0} → Html E → List Text
texts_of [] = []
texts_of (text t ∷ ts) = t ∷ texts_of ts
texts_of (start tag ats ∷ ts) = texts_of ts
texts_of (finish tag ∷ ts) = texts_of ts

-- The first unit of a line of the text before, and of the text after.
abbrev pub is_before : ℕ → Bool
is_before c = (c == b'-') || (c == b' ')

abbrev pub is_after : ℕ → Bool
is_after c = (c == b'+') || (c == b' ')

-- The parts of the two texts.
abbrev pub is_old : Part → Bool
is_old p = not p.added

abbrev pub is_new : Part → Bool
is_new p = not p.removed

-- The lines behind a mark of one side.
abbrev pub lines_of : (ℕ → Bool) → List Text → List Text
lines_of side [] = []
lines_of side ([] ∷ rows) = lines_of side rows
lines_of side ((c ∷ []) ∷ rows) = lines_of side rows
lines_of side ((c ∷ d ∷ l) ∷ rows) =
    let rest = lines_of side rows in if side c && (d == b' ') then l ∷ rest else rest

abbrev pub parts_text : (Part → Bool) → List Part → Text
parts_text keep [] = []
parts_text keep (p ∷ ps) = let rest = parts_text keep ps in if keep p then p.value ++ rest else rest

unlines-append : (xs ys : List Text) → unlines (xs ++ ys) ≡ unlines xs ++ unlines ys
unlines-append [] ys = refl
unlines-append (x ∷ xs) ys =
    ap (λ t. x ++ 10 ∷ t) (unlines-append xs ys)
    ∙ sym (append_assoc x (10 ∷ unlines xs) (unlines ys))

-- A row as it is shown.
abbrev shown_row : Mark × Text → Text
shown_row (mark, line) = mark_text mark ++ line

abbrev row_of : {E : Type 0} → Mark × Text → Html E
row_of (mark, line) =
    el "div" (attr "className" (mark_class mark) ∷ []) (show (mark_text mark ++ line))

texts_of-rows :
    {E : Type 0} (rows : List (Mark × Text)) (rest : Html E)
    → texts_of (flat_map row_of rows ++ rest) ≡ map shown_row rows ++ texts_of rest
unfolding flat_map
texts_of-rows [] rest = refl
texts_of-rows (r ∷ rows) rest = ap (λ ts. shown_row r ∷ ts) (texts_of-rows rows rest)

texts_of-line_diff :
    (E : Type 0) (parts : List Part)
    → texts_of (line_diff {E = E} parts) ≡ map shown_row (diff_rows parts)
unfolding line_diff
texts_of-line_diff E parts =
    texts_of-rows (diff_rows parts) (finish "pre" ∷ [])
    ∙ append-nil (map shown_row (diff_rows parts))

module _ (side : ℕ → Bool) (keep : Part → Bool) where
  -- The rows of a part stand on the side if the part does.
  abbrev Agrees : Part → Type 0
  Agrees p =
      (line : Text) (rows : List Text)
      → lines_of side (shown_row (mark_of p, line) ∷ rows)
        ≡ (if keep p then line ∷ lines_of side rows else lines_of side rows)

  lines_of-part :
      (p : Part) (ls : List Text) (rows : List (Mark × Text))
      → Agrees p
      → lines_of side (map shown_row (map (λ l. (mark_of p, l)) ls ++ rows)) ≡ (
          if keep p
          then ls ++ lines_of side (map shown_row rows)
          else lines_of side (map shown_row rows))
  lines_of-part p [] rows a = ground arith
  lines_of-part p (l ∷ ls) rows a =
      a l (map shown_row (map (λ l'. (mark_of p, l')) ls ++ rows))
      ∙ ground (arith, lines_of-part p ls rows a)

  lines_of-rows :
      (parts : List Part)
      → All (λ p. EndsInBreak p.value × Agrees p) parts
      → unlines (lines_of side (map shown_row (diff_rows parts))) ≡ parts_text keep parts
  unfolding diff_rows flat_map part_rows
  lines_of-rows [] h = refl
  lines_of-rows (p ∷ ps) ((e, a), h) =
      ap unlines (lines_of-part p (split 10 (drop_break p.value)) (diff_rows ps) a)
      ∙ (elim (Bool-cases (keep p)) [
        | inl shown ↦ rw shown (
            unlines-append (split 10 (drop_break p.value))
              (lines_of side (map shown_row (diff_rows ps)))
            ∙ ap (λ t. t ++ unlines (lines_of side (map shown_row (diff_rows ps))))
                (unlines-split (drop_break p.value) ∙ drop_break-append p.value e)
            ∙ ap (λ t. p.value ++ t) (lines_of-rows ps h))
        | inr hidden ↦ rw hidden (lines_of-rows ps h)
      ])

-- What the library says of a part: it ends with a line feed, and is not both added and removed.
abbrev pub IsPart : Part → Type 0
IsPart p = EndsInBreak p.value × ((p.added && p.removed) ≡ false)

old-Agrees : (p : Part) → Agrees is_before is_old p
unfolding mark_of units
old-Agrees p line rows = elim (Bool-cases p.added) [
  | inl a ↦ rw (a) refl
  | inr a ↦ elim (Bool-cases p.removed) [ inl r ↦ rw (a, r) refl | inr r ↦ rw (a, r) refl ]
]

new-Agrees : (p : Part) → (p.added && p.removed) ≡ false → Agrees is_after is_new p
unfolding mark_of units
new-Agrees p h line rows = elim (Bool-cases p.added) [
  | inl a ↦ elim (Bool-cases p.removed) [ inl r ↦ absurd (ground arith) | inr r ↦ rw (a, r) refl ]
  | inr a ↦ elim (Bool-cases p.removed) [ inl r ↦ rw (a, r) refl | inr r ↦ rw (a, r) refl ]
]

parts-Agree :
    (parts : List Part)
    → All IsPart parts
    → All (λ p. EndsInBreak p.value × Agrees is_before is_old p) parts
      × All (λ p. EndsInBreak p.value × Agrees is_after is_new p) parts
parts-Agree [] h = (tt, tt)
parts-Agree (p ∷ ps) ((e, one), h) =
    let (before, after) = parts-Agree ps h in
    (((e, old-Agrees p), before), ((e, new-Agrees p one), after))

-- Where the parts end with line feeds, none is both added and removed, those that are not added
-- spell the text before, and those that are not removed the text after, as the library says of its
-- parts of YAML: of the texts that the page shows, those behind "- " or two blanks are the lines of
-- the text before, and those behind "+ " or two blanks the lines of the text after, in order, with
-- none left out or repeated.
pub line_diff-spells :
    (E : Type 0) (parts : List Part) (before after : Text)
    → All IsPart parts
    → parts_text is_old parts ≡ before
    → parts_text is_new parts ≡ after
    → (unlines (lines_of is_before (texts_of (line_diff {E = E} parts))) ≡ before)
      × (unlines (lines_of is_after (texts_of (line_diff {E = E} parts))) ≡ after)
line_diff-spells E parts before after h b a =
    let (old, new) = parts-Agree parts h in
    (
      ap (λ ts. unlines (lines_of is_before ts)) (texts_of-line_diff E parts)
          ∙ lines_of-rows is_before is_old parts old
          ∙ b,
      ap (λ ts. unlines (lines_of is_after ts)) (texts_of-line_diff E parts)
          ∙ lines_of-rows is_after is_new parts new
          ∙ a,
    )
