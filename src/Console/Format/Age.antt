-- ===== src/Console/Format/Age.antt =====
-- What the age of a machine says.
use agentic_warden.Prelude.{
  ℕ, ◌+◌, ◌*◌, ◌≤◌, ◌<◌, false, Option, none, some, List, [], ◌∷◌, Text, units, text_eq, nat_eq,
  Bool-cases, ◌≡◌, ◌↔◌, ◌⊎◌, inl, inr, arith, ltb, leb,
}
use agentic_warden.Prelude.{◌*◌, ℤ, pos_part, neg_part, ◌-ℤ◌, abs_ℤ}
use agentic_warden.Console.Types.{Machine}
use agentic_warden.Console.Format.{
  week, never_seen, is_stale, Span, day, hour, minute, seconds, round_to, pick_span, relative,
}

sub-le :
    (a b : ℤ) (n : ℕ)
    → (ltb n (pos_part (a -ℤ b)) ≡ false)
      ↔ (pos_part a + neg_part b ≤ n + (pos_part b + neg_part a))
unfolding ◌-ℤ◌
sub-le a b n = ground arith

-- A machine whose last contact has a readable time is current exactly when it was seen and the
-- contact lies at most a week back.
pub is_stale-eq-false_iff :
    (time_of : Text → Option ℤ) (m : Machine) (now t : ℤ)
    → time_of m.last_seen_at ≡ some t
    → (is_stale time_of m now ≡ false)
      ↔ ((never_seen m ≡ false) × (pos_part now + neg_part t ≤ week + (pos_part t + neg_part now)))
unfolding is_stale
is_stale-eq-false_iff time_of m now t h = ground (arith, h, sub-le now t week)

-- `k` times the span is nearest to `d`, and the larger of two nearest.
abbrev pub IsNearest : ℕ → ℤ → ℤ → Type 0
IsNearest s k d =
    (2 * s * pos_part k + 2 * neg_part d ≤ 2 * pos_part d + s + 2 * s * neg_part k)
    × (2 * pos_part d + s + 2 * s * neg_part k < 2 * s * pos_part k + 2 * s + 2 * neg_part d)

round_to-IsNearest : (u : Span) (d : ℤ) → IsNearest (seconds u * 1000) (round_to (seconds u) d) d
unfolding round_to
round_to-IsNearest day d = ground arith
round_to-IsNearest hour d = ground arith
round_to-IsNearest minute d = ground arith

-- The spans in the order in which they are tried.
abbrev pub spans : List Span
spans = day ∷ hour ∷ minute ∷ []

-- A span fits a difference if it is no longer than it, and no longer span is tried.
abbrev pub Fits : Span → ℤ → Type 0
Fits day d = 86400000 ≤ abs_ℤ d
Fits hour d = (3600000 ≤ abs_ℤ d) × (abs_ℤ d < 86400000)
Fits minute d = (60000 ≤ abs_ℤ d) × (abs_ℤ d < 3600000)

pick_span-cases :
    (d : ℤ)
    → ((pick_span spans d ≡ none) × (abs_ℤ d < 60000))
      ⊎ ((u : Span) × (pick_span spans d ≡ some u) × Fits u d)
unfolding pick_span
pick_span-cases d = elim (Bool-cases (leb 86400000 (abs_ℤ d))) [
  | inl a ↦ inr (day, rw a, ground arith)
  | inr a ↦ elim (Bool-cases (leb 3600000 (abs_ℤ d))) [
    | inl b ↦ inr (hour, rw (a, b), (ground arith, ground arith))
    | inr b ↦ elim (Bool-cases (leb 60000 (abs_ℤ d))) [
      | inl c ↦ inr (minute, rw (a, b, c), (ground arith, ground arith))
      | inr c ↦ inl (rw (a, b, c), ground arith)
    ]
  ]
]

module _ (time_of : Text → Option ℤ) (format : ℤ → Span → Text) (iso : Text) (now t : ℤ) where
  relative-none :
      time_of iso ≡ some t
      → pick_span spans (t -ℤ now) ≡ none
      → relative time_of format iso now ≡ units "just now"
  unfolding relative
  relative-none h e = ground (arith, h, e)

  relative-some :
      (u : Span)
      → time_of iso ≡ some t
      → pick_span spans (t -ℤ now) ≡ some u
      → relative time_of format iso now ≡ format (round_to (seconds u) (t -ℤ now)) u
  unfolding relative
  relative-some u h e = ground (arith, h, e)

-- The age of a readable time is "just now" below a minute. Otherwise it is the formatted number of
-- the longest span that fits, rounded to the nearest, halves up.
pub relative_lem :
    (time_of : Text → Option ℤ) (format : ℤ → Span → Text) (iso : Text) (now t : ℤ)
    → time_of iso ≡ some t
    → ((relative time_of format iso now ≡ units "just now") × (abs_ℤ (t -ℤ now) < 60000))
      ⊎ ((u : Span) × (k : ℤ) × (relative time_of format iso now ≡ format k u)
          × Fits u (t -ℤ now)
          × IsNearest (seconds u * 1000) k (t -ℤ now))
relative_lem time_of format iso now t h = elim (pick_span-cases (t -ℤ now)) [
  | inl (e, small) ↦ inl (relative-none time_of format iso now t h e, small)
  | inr (u, e, fits) ↦ inr (
    u,
    round_to (seconds u) (t -ℤ now),
    relative-some time_of format iso now t u h e,
    fits,
    round_to-IsNearest u (t -ℤ now),
  )
]
