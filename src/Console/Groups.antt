-- ===== src/Console/Groups.antt =====
-- console/src/screens/groups.tsx: the groups that the control plane knows, their sizes, and the form
-- that resolves one user's groups.
use agentic_warden.Prelude.{
  ℕ, zero, suc, ◌+◌, ◌-◌, ◌*◌, ◌≤◌, ◌<◌, Bool, true, false, not, ◌&&◌, ◌||◌, String, Option, none,
  some, List, [], ◌∷◌, ◌++◌, map, reverse, flat_map, append_assoc, append-nil, Text, units,
  text_beq, text_eq, nat_eq, Equality, ◌==◌, ==_iff, ==_refl, if◌then◌else◌, Bool-cases,
  Option-cases, All, All-append, All-reverse, length, filter, find?, is_empty, first?, last?,
  contains, is_some, get_or, truthy, or_else, split, join, ◌≡◌, ◌≢◌, ◌↔◌, ◌⊎◌, inl, inr, refl, sym,
  ap, ◌∙◌, subst, fun_ext, arith, ltb, leb, Result,
}
pub mod Counts
pub mod Order
use agentic_warden.Prelude.{ok, throw, ℤ}
use agentic_warden.Console.Types.{
  GroupsView, GroupSources, ScimCounts, Failure, api_error, error, thrown, error_message,
  api_message, has_status, Query, QueryStatus, pending, succeeded, failed,
}
use agentic_warden.Console.Format.{Span, relative}
use agentic_warden.Console.Parts.{dash, cell, row, table, alert, labelled, input}
use agentic_warden.View.{Attr, attr, flag, on, Html, el, say, show, decimal}

-- `fetchGroups`, on what the request gives.
unfoldable pub fetch_groups : Result Failure GroupsView → Result Failure (Option GroupsView)
fetch_groups (ok view) = ok (some view)
fetch_groups (throw e) = if has_status e 404 then ok none else throw e

-- `counts.set(group, (counts.get(group) ?? 0) + 1)`; a map keeps the order of its first settings.
unfoldable pub bump : Text → List (Text × ℕ) → List (Text × ℕ)
bump g [] = (g, 1) ∷ []
bump g ((k, n) ∷ counts) =
    let rest = bump g counts in if k == g then (k, suc n) ∷ counts else (k, n) ∷ rest

-- The inner loop.
unfoldable pub bump_all : List Text → List (Text × ℕ) → List (Text × ℕ)
unfolding bump
bump_all [] counts = counts
bump_all (g ∷ gs) counts = bump_all gs (bump g counts)

-- The outer loop over the values of the object.
unfoldable pub tally : List (Text × List Text) → List (Text × ℕ) → List (Text × ℕ)
unfolding bump_all
tally [] counts = counts
tally ((user, gs) ∷ members) counts = tally members (bump_all gs counts)

-- The sort is stable; `after a b` tells whether `a.localeCompare(b)` is positive.
module _ (after : Text → Text → Bool) where
  unfoldable pub insert_count : Text × ℕ → List (Text × ℕ) → List (Text × ℕ)
  insert_count x [] = x ∷ []
  insert_count x (y ∷ ys) =
      let rest = insert_count x ys in if after x.0 y.0 then y ∷ rest else x ∷ y ∷ ys

  unfoldable pub sort_counts : List (Text × ℕ) → List (Text × ℕ)
  unfolding insert_count
  sort_counts [] = []
  sort_counts (x ∷ xs) = insert_count x (sort_counts xs)

  unfoldable pub group_counts : Option (List (Text × List Text)) → List (Text × ℕ)
  unfolding tally sort_counts
  group_counts members = sort_counts (tally (get_or members []) [])

pub record ResolveState : Type 0 where
  pub typed_user : Text
  -- the user of the query
  pub user : Text

pub data ResolveEvent : Type 0 where
  typed : Text → ResolveEvent
  resolve_clicked : ResolveEvent

unfoldable pub resolve_step : ResolveState → ResolveEvent → ResolveState
resolve_step s (typed value) = record s { typed_user = value }
resolve_step s resolve_clicked = record s { user = s.typed_user }

-- The path that is requested: the query is enabled by a user.
unfoldable pub resolve_request : (Text → Text) → ResolveState → Option Text
resolve_request encode s =
    if truthy s.user then some (units "/v1/groups/resolve?user=" ++ encode s.user) else none

abbrev pub joined : List Text → Text
joined names = or_else (join (units ", ") names) dash

abbrev pub described : {E : Type 0} → String → Text → Html E
described term value = el "dt" [] (say term) ++ el "dd" [] (show value)

unfoldable pub sources_view : {E : Type 0} → GroupSources → Html E
sources_view g = el "div" [] (
    el "dl" [] (
      described "Authored" (joined g.authored)
      ++ described "Snapshot" (joined g.snapshot)
      ++ described "SCIM" (joined g.scim)
      ++ described "Effective" (joined g.effective))
    ++ (if truthy (get_or g.scim_near_match [])
        then el "p" (attr "role" (units "status") ∷ []) (
            show (
              units "SCIM has "
              ++ get_or g.scim_near_match []
              ++ units " — differs only in case; fix the IdP attribute mapping."))
        else []))

unfoldable pub resolve_form : ResolveState → Query GroupSources → Html ResolveEvent
unfolding sources_view
resolve_form s query = el "div" [] (
    el "h2" [] (say "Resolve a user's groups")
    ++ el "div" [] (
        labelled (units "resolve-user") (say "User")
          (input (units "resolve-user") s.typed_user typed)
        ++ el "Button"
            (attr "type" (units "button")
              ∷ on "click" resolve_clicked
              ∷ flag "disabled" (not (truthy s.typed_user))
              ∷ [])
            (say "Resolve"))
    ++ elim query.status [
      | failed e ↦ alert (api_message e (units "Could not resolve groups."))
      | succeeded ↦ []
      | pending ↦ []
    ]
    ++ elim query.loaded [ none ↦ [] | some g ↦ sources_view g ])

module _ (time_of : Text → Option ℤ) (format : ℤ → Span → Text) (now : ℤ) where
  -- `Synced …` of a snapshot, as the overview shows it too.
  unfoldable pub synced_text : GroupsView → Text
  unfolding relative
  synced_text g =
      if truthy (get_or g.synced_at [])
      then units "Synced " ++ relative time_of format (get_or g.synced_at []) now
      else units "Never synced"

  unfoldable pub scim_text : ScimCounts → Text
  scim_text c =
      units "SCIM: "
      ++ decimal c.users
      ++ units " users ("
      ++ decimal c.active_users
      ++ units " active), "
      ++ decimal c.groups
      ++ units " group"
      ++ (if c.groups == 1 then [] else units "s")

  unfoldable pub groups_page :
      (Text → Text → Bool)
      → Query (Option GroupsView)
      → ResolveState
      → Query GroupSources
      → Html ResolveEvent
  unfolding synced_text scim_text group_counts resolve_form
  groups_page after query s resolving = el "div" [] (
      el "h1" [] (say "Groups")
      ++ elim query.status [
        | pending ↦ []
        | failed e ↦ alert (error_message e (units "Could not load groups."))
        | succeeded ↦ elim (get_or query.loaded none) [
          | none ↦ el "p" [] (
              say "No group data yet. Sync SCIM or run "
              ++ el "code" [] (say "awd groups apply")
              ++ say " to load one.")
          | some g ↦ el "div" [] (
              el "div" [] (
                el "p" [] (
                  show (
                    units "Source: "
                    ++ get_or g.source dash
                    ++ units " · Applied by: "
                    ++ get_or g.applied_by dash
                    ++ units " · "
                    ++ synced_text g))
                ++ elim g.scim [ none ↦ [] | some c ↦ el "p" [] (show (scim_text c)) ])
              ++ table ("Group" ∷ "Members" ∷ []) (
                  flat_map
                    (λ (group, count). row (cell (show group) ++ cell (show (decimal count))))
                    (group_counts after g.members)))
        ]
      ]
      ++ resolve_form s resolving)
