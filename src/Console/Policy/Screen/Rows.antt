-- ===== src/Console/Policy/Screen/Rows.antt =====
-- Which rows are unfolded, and which revisions are compared.
use agentic_warden.Prelude.{
  ℕ, true, false, not, ◌&&◌, none, some, List, ◌∷◌, ◌++◌, Text, text_eq, nat_eq, ◌==◌, ==_iff,
  Option-cases, All, find?, ◌≡◌, ◌⊎◌, inl, inr, refl, arith,
}
use agentic_warden.Prelude.{find?-some, find?-none}
use agentic_warden.Console.Types.{Revision}
use agentic_warden.Console.Policy.Screen.{
  PolicyState, toggled, is_expanded, policy_step, CompareState, compared,
}

-- After a row is toggled, a row is unfolded exactly if it is that row and was not unfolded before:
-- never two at once, and a second click folds the row again.
pub policy_step-toggled :
    (s : PolicyState) (a b : ℕ)
    → is_expanded (policy_step s (toggled a)) b ≡ (a == b) && not (is_expanded s a)
unfolding policy_step is_expanded
policy_step-toggled s a b = ground arith

-- What the comparison shows: of each chosen version the first revision of the list that has it, and
-- nothing only if one of the two versions is that of no revision.
pub compared-cases :
    (revisions : List Revision) (s : CompareState)
    → ((from to : Revision) × (compared revisions s ≡ some (from, to))
        × (from.version ≡ s.from_version)
        × (to.version ≡ s.to_version))
      ⊎ ((compared revisions s ≡ none)
          × (All (λ r. (r.version == s.from_version) ≡ false) revisions
              ⊎ All (λ r. (r.version == s.to_version) ≡ false) revisions))
unfolding compared
compared-cases revisions s =
    elim (Option-cases (find? (λ r. r.version == s.from_version) revisions)) [
      | inl h ↦
          inr
            (rw (h, compared) refl, inl (find?-none (λ r. r.version == s.from_version) revisions h))
      | inr (from, h) ↦ elim (Option-cases (find? (λ r. r.version == s.to_version) revisions)) [
        | inl k ↦ inr (
          rw (h, k, compared) refl,
          inr (find?-none (λ r. r.version == s.to_version) revisions k),
        )
        | inr (to, k) ↦ inl (
          from,
          to,
          rw (h, k, compared) refl,
          hit from s.from_version (find?-some (λ r. r.version == s.from_version) revisions from h),
          hit to s.to_version (find?-some (λ r. r.version == s.to_version) revisions to k),
        )
      ]
    ]
  where
    hit :
        (r : Revision) (v : Text)
        → (before after : List Revision) × (revisions ≡ before ++ r ∷ after)
          × All (λ q. (q.version == v) ≡ false) before
          × ((r.version == v) ≡ true)
        → r.version ≡ v
    hit r v (before, after, e, misses, h) = (==_iff r.version v).0 h
