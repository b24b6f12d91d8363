-- ===== src/Console/Format.antt =====
-- console/src/lib/format.ts: the age of a machine. Times are whole milliseconds; `time_of` is what
-- `new Date(iso).getTime()` gives, none for NaN.
pub mod Age
use agentic_warden.Prelude.{
  ℕ, zero, suc, ◌+◌, ◌-◌, ◌*◌, ◌≤◌, ◌<◌, Bool, true, false, not, ◌&&◌, ◌||◌, String, Option, none,
  some, List, [], ◌∷◌, ◌++◌, map, reverse, flat_map, append_assoc, append-nil, Text, units,
  text_beq, text_eq, nat_eq, Equality, ◌==◌, ==_iff, ==_refl, if◌then◌else◌, Bool-cases,
  Option-cases, All, All-append, All-reverse, length, filter, find?, is_empty, first?, last?,
  contains, is_some, get_or, truthy, or_else, split, join, ◌≡◌, ◌≢◌, ◌↔◌, ◌⊎◌, inl, inr, refl, sym,
  ap, ◌∙◌, subst, fun_ext, arith, ltb, leb, Result,
}
use agentic_warden.Prelude.{
  ◌*◌, ◌/◌, ℤ, pos, negsuc, pos_part, neg_part, sub_ℕ, ◌-ℤ◌, abs_ℤ, floor_div,
}
use agentic_warden.Console.Types.{Machine}

abbrev pub zero_time : Text
zero_time = units "0001-01-01T00:00:00Z"

abbrev pub week : ℕ
week = 7 * 24 * 60 * 60 * 1000

unfoldable pub never_seen : Machine → Bool
never_seen m = not (truthy m.last_seen_at) || m.last_seen_at == zero_time

-- `now.getTime() - new Date(iso).getTime() > WEEK`
abbrev pub older_than : ℕ → Option ℤ → ℤ → Bool
older_than limit none now = false
older_than limit (some t) now = ltb limit (pos_part (now -ℤ t))

module _ (time_of : Text → Option ℤ) where
  unfoldable pub is_stale : Machine → ℤ → Bool
  unfolding never_seen
  is_stale m now = never_seen m || older_than week (time_of m.last_seen_at) now

-- `Boolean(m.lastKeyId && current && m.lastKeyId !== current)`
unfoldable pub is_old_key : Machine → Option Text → Bool
is_old_key m current =
    truthy (get_or m.last_key_id [])
    && truthy (get_or current [])
    && not (get_or m.last_key_id [] == get_or current [])

pub data Span : Type 0 where
  day hour minute : Span

abbrev pub seconds : Span → ℕ
seconds day = 86400
seconds hour = 3600
seconds minute = 60

-- `Math.round(diff / secs)` for a difference in milliseconds: halves go up.
unfoldable pub round_to : ℕ → ℤ → ℤ
unfolding ◌-ℤ◌
round_to secs d =
    floor_div (sub_ℕ (2 * pos_part d + secs * 1000) (2 * neg_part d)) (2 * (secs * 1000))

-- The loop over the units.
unfoldable pub pick_span : List Span → ℤ → Option Span
pick_span [] d = none
pick_span (u ∷ us) d = if leb (seconds u * 1000) (abs_ℤ d) then some u else pick_span us d

-- `format` is that of `Intl.RelativeTimeFormat`.
module _ (time_of : Text → Option ℤ) (format : ℤ → Span → Text) where
  unfoldable pub relative : Text → ℤ → Text
  relative iso now = elim (time_of iso) [
    | none ↦ units "just now"
    | some t ↦ elim (pick_span (day ∷ hour ∷ minute ∷ []) (t -ℤ now)) [
      | none ↦ units "just now"
      | some u ↦ format (round_to (seconds u) (t -ℤ now)) u
    ]
  ]
