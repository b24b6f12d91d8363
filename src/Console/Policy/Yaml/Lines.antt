-- ===== src/Console/Policy/Yaml/Lines.antt =====
-- The line of an error is a line of the text.
use agentic_warden.Prelude.{
  ℕ, suc, ◌+◌, ◌≤◌, ◌<◌, some, List, [], ◌∷◌, Text, units, text_eq, nat_eq, ◌==◌, if◌then◌else◌,
  Bool-cases, Option-cases, length, first?, split, ◌≡◌, ◌⊎◌, inl, inr, refl, arith, leb,
}
use agentic_warden.Prelude.{trim, ends_with, split, widen}
use agentic_warden.Console.Policy.Yaml.{YamlError, Document, invalid, last_line, parse_policy}

-- The line feeds of a text.
abbrev pub count_breaks : Text → ℕ
count_breaks [] = 0
count_breaks (c ∷ s) = (if c == 10 then 1 else 0) + count_breaks s

length-widen : (c : ℕ) (ws : List Text) → 0 < length ws → length (widen c ws) ≡ length ws
length-widen c [] h = absurd (omega arith)
length-widen c (w ∷ ws) h = refl

length-split : (s : Text) → length (split 10 s) ≡ suc (count_breaks s)
unfolding split
length-split [] = refl
length-split (c ∷ s) = ground (arith, length-split s, length-widen c (split 10 s))

-- A text that is refused gets a line between 1 and its last: with a line feed at the end the last
-- is the one before that line feed, and a text that holds nothing else still has its line 1. This
-- takes the parser's promise that it counts lines from 1.
pub parse_policy-line :
    (parse_document : Text → Document) (t : Text) (message : Text) (line : ℕ)
    → ((err : YamlError) (n : ℕ)
        → err.line ≡ some n
        → first? (parse_document t).errors ≡ some err
        → 1 ≤ n)
    → parse_policy parse_document t ≡ invalid message line
    → (1 ≤ line)
      × ((line ≤ count_breaks t + (if ends_with t (units "\n") then 0 else 1)) ⊎ (line ≡ 1))
unfolding parse_policy last_line
parse_policy-line parse_document t message line from_one h = elim (Bool-cases (trim t == [])) [
  | inl empty ↦ (ground arith, inr (ground arith))
  | inr full ↦ elim (Option-cases (first? (parse_document t).errors)) [
    | inl e ↦ absurd (ground arith)
    | inr (err, e) ↦ elim (Option-cases err.line) [
      | inl p ↦ (ground (arith, length-split t), inr (ground (arith, length-split t)))
      | inr (n, p) ↦
          let one = from_one err n p e in (ground (arith, length-split t), bounded err n p e one)
    ]
  ]
]
  where
    bounded :
        (err : YamlError) (n : ℕ)
        → err.line ≡ some n
        → first? (parse_document t).errors ≡ some err
        → 1 ≤ n
        → (line ≤ count_breaks t + (if ends_with t (units "\n") then 0 else 1)) ⊎ (line ≡ 1)
    bounded err n p e one = elim (Bool-cases (ends_with t (units "\n"))) [
      | inl at_end ↦ elim (Bool-cases (leb 1 (count_breaks t))) [
        | inl some_break ↦ inl (ground (arith, length-split t))
        | inr no_break ↦ inr (ground (arith, length-split t))
      ]
      | inr open_end ↦ inl (ground (arith, length-split t))
    ]
