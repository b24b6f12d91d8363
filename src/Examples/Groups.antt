-- ===== src/Examples/Groups.antt =====
-- The table of groups at concrete memberships.
use agentic_warden.Prelude.{
  ◌<◌, Bool, false, some, List, [], ◌∷◌, Text, units, text_beq, text_eq, nat_eq, ◌==◌, ==_iff,
  Bool-cases, filter, ◌≡◌, inl, inr, refl, sym, ◌∙◌, arith,
}
use agentic_warden.Console.Groups.{group_counts}
use agentic_warden.Console.Groups.Counts.{group_counts-entries, entry, count_all}
use agentic_warden.Console.Groups.Order.{IsComparison, group_counts-order}

groups_code : Unit {0}
unfolding units text_beq group_counts
groups_code = tt

abbrev memberships : List (Text × List Text)
memberships = (units "ada", units "dev" ∷ units "dev" ∷ []) ∷ (units "bob", units "dev" ∷ []) ∷ []

abbrev spread : List (Text × List Text)
spread =
    (units "bob", units "dev" ∷ [])
    ∷ (units "ada", units "dev" ∷ [])
    ∷ (units "cy", units "dev" ∷ [])
    ∷ []

abbrev never_after : Text → Text → Bool
never_after a b = false

group_counts-entries_example :
    filter (λ e. e.0 == units "dev") (group_counts never_after (some memberships))
    ≡ entry (units "dev") (count_all (units "dev") memberships)
group_counts-entries_example = group_counts-entries never_after (some memberships) (units "dev")

never_after-IsComparison : IsComparison never_after
never_after-IsComparison = record { asym = λ a b h. refl; trans = λ a b c h k. refl }

-- There is no other group.
only_dev : (a : Text) → 0 < count_all a memberships → a ≡ units "dev"
unfolding groups_code
only_dev a h = elim (Bool-cases (units "dev" == a)) [
  | inl hit ↦ sym ((==_iff (units "dev") a).0 hit)
  | inr miss ↦ ground (arith, miss)
]

as_often : (g : Text) → count_all g memberships ≡ count_all g spread
unfolding groups_code
as_often g = elim (Bool-cases (units "dev" == g)) [
  | inl hit ↦ ground (arith, hit)
  | inr miss ↦ ground (arith, miss)
]

group_counts-order_example :
    group_counts never_after (some memberships) ≡ group_counts never_after (some spread)
group_counts-order_example =
    group_counts-order never_after (some memberships) (some spread) never_after-IsComparison
      (λ a b ha hb h k. only_dev a ha ∙ sym (only_dev b hb)) as_often
