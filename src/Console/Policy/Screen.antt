-- ===== src/Console/Policy/Screen.antt =====
-- console/src/screens/policy.tsx: the list of revisions, the comparison of two, and the frame of a
-- new one.
pub mod Rows
use agentic_warden.Prelude.{
  ℕ, zero, suc, ◌+◌, ◌-◌, ◌*◌, ◌≤◌, ◌<◌, Bool, true, false, not, ◌&&◌, ◌||◌, String, Option, none,
  some, List, [], ◌∷◌, ◌++◌, map, reverse, flat_map, append_assoc, append-nil, Text, units,
  text_beq, text_eq, nat_eq, Equality, ◌==◌, ==_iff, ==_refl, if◌then◌else◌, Bool-cases,
  Option-cases, All, All-append, All-reverse, length, filter, find?, is_empty, first?, last?,
  contains, is_some, get_or, truthy, or_else, split, join, ◌≡◌, ◌≢◌, ◌↔◌, ◌⊎◌, inl, inr, refl, sym,
  ap, ◌∙◌, subst, fun_ext, arith, ltb, leb, Result,
}
use agentic_warden.Console.Types.{
  Json, Revision, Failure, error_message, Query, QueryStatus, pending, succeeded, failed,
  is_success,
}
use agentic_warden.Console.Policy.Diff.{Part, line_diff}
use agentic_warden.Console.Parts.{dash, cell, row, table, alert, status_line, labelled}
use agentic_warden.View.{Attr, attr, number, flag, on, on_value, Html, el, say, show, decimal}

pub record PolicyState : Type 0 where
  -- the number of the revision that is unfolded
  pub expanded : Option ℕ
  pub status : Option Text
  pub creating : Bool

pub data PolicyEvent : Type 0 where
  new_clicked : PolicyEvent
  -- a click on a row, or the key Enter or a space
  toggled : ℕ → PolicyEvent
  done : Text → PolicyEvent

-- `expanded === r.seq`
unfoldable pub is_expanded : PolicyState → ℕ → Bool
is_expanded s seq = elim s.expanded [ none ↦ false | some n ↦ n == seq ]

unfoldable pub policy_step : PolicyState → PolicyEvent → PolicyState
unfolding is_expanded
policy_step s new_clicked = record s { creating = true }
policy_step s (toggled seq) = record s { expanded = if is_expanded s seq then none else some seq }
policy_step s (done message) = record s { status = some message; creating = false }

pub record CompareState : Type 0 where
  pub from_version : Text
  pub to_version : Text

pub data CompareEvent : Type 0 where
  from_chosen to_chosen : Text → CompareEvent

unfoldable pub compare_step : CompareState → CompareEvent → CompareState
compare_step s (from_chosen v) = record s { from_version = v }
compare_step s (to_chosen v) = record s { to_version = v }

-- The two revisions that are compared.
unfoldable pub compared : List Revision → CompareState → Option (Revision × Revision)
compared revisions s = elim (find? (λ r. r.version == s.from_version) revisions) [
  | none ↦ none
  | some from ↦ elim (find? (λ r. r.version == s.to_version) revisions) [
    | none ↦ none
    | some to ↦ some (from, to)
  ]
]

unfoldable pub revision_select :
    Text → Text → Text → (Text → CompareEvent) → List Revision → Html CompareEvent
revision_select id label value event revisions = labelled id (show label) (
    el "select" (attr "id" id ∷ attr "value" value ∷ on_value "change" event ∷ []) (
      el "option" (attr "value" [] ∷ []) (say "Select a revision")
      ++ flat_map
          (λ r.
            el "option" (attr "value" r.version ∷ [])
              (show (r.version ++ units " (rev " ++ decimal r.seq ++ units ")")))
          revisions))

module _ (to_yaml : Json → Text) (diff : Text → Text → List Part) where
  unfoldable pub compare_revisions : List Revision → CompareState → Html CompareEvent
  unfolding compared revision_select line_diff
  compare_revisions revisions s = el "div" [] (
      el "h2" [] (say "Compare revisions")
      ++ el "div" [] (
          revision_select (units "compare-from") (units "Compare from") s.from_version from_chosen
            revisions
          ++ revision_select (units "compare-to") (units "Compare to") s.to_version to_chosen
              revisions)
      ++ elim (compared revisions s) [
        | none ↦ []
        | some (from, to) ↦ line_diff (diff (to_yaml from.rule_set) (to_yaml to.rule_set))
      ])

-- The screen draws the comparison and the new revision; both come in as they are drawn.
pub data ScreenEvent (C N : Type 0) : Type 0 where
  own : PolicyEvent → ScreenEvent C N
  comparing : C → ScreenEvent C N
  drafting : N → ScreenEvent C N

module _ {C N : Type 0} (to_yaml : Json → Text) where
  unfoldable pub revision_row : Revision → Bool → Html (ScreenEvent C N)
  revision_row r expanded =
      el "TableRow"
        (attr "role" (units "button")
          ∷ number "tabIndex" 0
          ∷ flag "aria-expanded" expanded
          ∷ on "click" (own (toggled r.seq))
          ∷ on "keydown Enter" (own (toggled r.seq))
          ∷ on "keydown Space" (own (toggled r.seq))
          ∷ [])
        (cell (show r.version)
          ++ cell (show (get_or r.created_by dash))
          ++ cell (show r.created_at))
      ++ (if expanded
          then row
              (el "TableCell" (number "colSpan" 3 ∷ []) (el "pre" [] (show (to_yaml r.rule_set))))
          else [])

  unfoldable pub policy_page :
      Query (List Revision)
      → PolicyState
      → (List Revision → Html (ScreenEvent C N))
      → (Option Revision → Bool → Html (ScreenEvent C N))
      → Html (ScreenEvent C N)
  unfolding revision_row is_expanded
  policy_page query s compare new_revision =
      let revisions = get_or query.loaded [] in
      el "div" [] (
        el "div" [] (
          el "h1" [] (say "Policy")
          ++ el "Button" (attr "type" (units "button") ∷ on "click" (own new_clicked) ∷ [])
              (say "New revision"))
        ++ status_line s.status
        ++ elim query.status [
          | failed e ↦ alert (error_message e (units "Could not load revisions."))
          | succeeded ↦
              if is_empty revisions
              then el "p" [] (say "No revisions yet.")
              else table ("Version" ∷ "Applied by" ∷ "Applied" ∷ [])
                  (flat_map (λ r. revision_row r (is_expanded s r.seq)) revisions)
          | pending ↦ []
        ]
        ++ (if ltb 1 (length revisions) then compare revisions else [])
        ++ (if s.creating then new_revision (first? revisions) (is_success query.status) else []))
