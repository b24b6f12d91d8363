-- ===== src/Site/Docs/Copy.antt =====
-- web/components/docs-copy.tsx: the copy buttons of the code blocks. A page is its code blocks; a
-- click is given by the block whose button it hit, if any, as `closest` finds it.
pub mod Reading
use agentic_warden.Prelude.{
  ℕ, zero, suc, ◌+◌, ◌-◌, ◌*◌, ◌≤◌, ◌<◌, Bool, true, false, not, ◌&&◌, ◌||◌, String, Option, none,
  some, List, [], ◌∷◌, ◌++◌, map, reverse, flat_map, append_assoc, append-nil, Text, units,
  text_beq, text_eq, nat_eq, Equality, ◌==◌, ==_iff, ==_refl, if◌then◌else◌, Bool-cases,
  Option-cases, All, All-append, All-reverse, length, filter, find?, is_empty, first?, last?,
  contains, is_some, get_or, truthy, or_else, split, join, ◌≡◌, ◌≢◌, ◌↔◌, ◌⊎◌, inl, inr, refl, sym,
  ap, ◌∙◌, subst, fun_ext, arith, ltb, leb, Result,
}

-- A block: the text of its `pre`, if it has one, and what its button says.
pub record CodeBlock : Type 0 where
  pub content : Option Text
  pub label : Text

pub data CopyEvent : Type 0 where
  clicked : Option ℕ → CopyEvent
  -- the clipboard has taken the text; a clipboard that refuses ends the handler
  written : ℕ → CopyEvent
  -- the timer of a block
  timed_out : ℕ → CopyEvent

pub data CopyEffect : Type 0 where
  write_text : ℕ → Text → CopyEffect
  set_timer : ℕ → ℕ → CopyEffect

-- `code.replace(/\n$/, "")`
unfoldable pub drop_last_feed : Text → Text
drop_last_feed [] = []
drop_last_feed (c ∷ []) = if c == 10 then [] else c ∷ []
drop_last_feed (c ∷ d ∷ s) = c ∷ drop_last_feed (d ∷ s)

abbrev pub block_at : ℕ → List CodeBlock → Option CodeBlock
block_at n [] = none
block_at zero (b ∷ bs) = some b
block_at (suc n) (b ∷ bs) = block_at n bs

unfoldable pub set_label : ℕ → Text → List CodeBlock → List CodeBlock
set_label n t [] = []
set_label zero t (b ∷ bs) = record b { label = t } ∷ bs
set_label (suc n) t (b ∷ bs) = b ∷ set_label n t bs

abbrev code_at : ℕ → List CodeBlock → Option Text
code_at n page = elim (block_at n page) [ none ↦ none | some b ↦ b.content ]

unfoldable pub copy_step : List CodeBlock → CopyEvent → List CodeBlock × List CopyEffect
unfolding drop_last_feed set_label
copy_step page (clicked none) = (page, [])
copy_step page (clicked (some n)) = elim (code_at n page) [
  | none ↦ (page, [])
  | some code ↦ (page, write_text n (drop_last_feed code) ∷ [])
]
copy_step page (written n) = (set_label n (units "Copied") page, set_timer n 1500 ∷ [])
copy_step page (timed_out n) = (set_label n (units "Copy") page, [])
