-- ===== src/Console/Policy/Diff.antt =====
-- console/src/policy/diff.tsx. The parts come from the package diff.
pub mod Rows
use agentic_warden.Prelude.{
  ℕ, zero, suc, ◌+◌, ◌-◌, ◌*◌, ◌≤◌, ◌<◌, Bool, true, false, not, ◌&&◌, ◌||◌, String, Option, none,
  some, List, [], ◌∷◌, ◌++◌, map, reverse, flat_map, append_assoc, append-nil, Text, units,
  text_beq, text_eq, nat_eq, Equality, ◌==◌, ==_iff, ==_refl, if◌then◌else◌, Bool-cases,
  Option-cases, All, All-append, All-reverse, length, filter, find?, is_empty, first?, last?,
  contains, is_some, get_or, truthy, or_else, split, join, ◌≡◌, ◌≢◌, ◌↔◌, ◌⊎◌, inl, inr, refl, sym,
  ap, ◌∙◌, subst, fun_ext, arith, ltb, leb, Result,
}
use agentic_warden.Prelude.{split}
use agentic_warden.View.{Attr, attr, Html, el, show}

-- A part of `diffLines`.
pub record Part : Type 0 where
  pub value : Text
  pub added : Bool
  pub removed : Bool

-- `value.replace(/\n$/, "")`
unfoldable pub drop_break : Text → Text
drop_break [] = []
drop_break (c ∷ []) = if c == 10 then [] else c ∷ []
drop_break (c ∷ d ∷ s) = c ∷ drop_break (d ∷ s)

-- How a line is marked.
pub data Mark : Type 0 where
  plus minus blank : Mark

unfoldable pub mark_of : Part → Mark
mark_of p = if p.added then plus else if p.removed then minus else blank

abbrev pub mark_text : Mark → Text
mark_text plus = units "+ "
mark_text minus = units "- "
mark_text blank = units "  "

abbrev pub mark_class : Mark → Text
mark_class plus = units "bg-green-500/10"
mark_class minus = units "bg-red-500/10"
mark_class blank = units "text-muted-foreground"

-- The lines of a part, each with its mark.
unfoldable pub part_rows : Part → List (Mark × Text)
unfolding split drop_break
part_rows p = map (λ line. (mark_of p, line)) (split 10 (drop_break p.value))

unfoldable pub diff_rows : List Part → List (Mark × Text)
unfolding part_rows
diff_rows parts = flat_map part_rows parts

unfoldable pub line_diff : {E : Type 0} → List Part → Html E
unfolding diff_rows
line_diff parts = el "pre" (attr "aria-label" (units "Changes") ∷ []) (
    flat_map
      (λ (mark, line).
        el "div" (attr "className" (mark_class mark) ∷ []) (show (mark_text mark ++ line)))
      (diff_rows parts))
