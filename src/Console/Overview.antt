-- ===== src/Console/Overview.antt =====
-- console/src/screens/overview.tsx: the four cards.
pub mod Failing
use agentic_warden.Prelude.{
  ℕ, String, Option, none, some, List, [], ◌++◌, flat_map, Text, units, text_eq, nat_eq, ◌==◌,
  if◌then◌else◌, length, filter, is_empty, first?, get_or, ltb,
}
use agentic_warden.Prelude.{ℤ}
use agentic_warden.Console.Types.{
  Me, Revision, Machine, GroupsView, AuditEvent, Failure, error_message, Query, pending, succeeded,
  failed,
}
use agentic_warden.Console.Format.{Span, is_old_key, relative}
use agentic_warden.Console.Groups.{synced_text}
use agentic_warden.Console.Parts.{dash, alert}
use agentic_warden.View.{Html, el, say, show, decimal}

abbrev pub card : String → Html ⊥ → Html ⊥
card title content =
    el "Card" [] (el "CardHeader" [] (el "CardTitle" [] (say title)) ++ el "CardContent" [] content)

unfoldable pub card_error : Failure → Html ⊥
card_error e = alert (error_message e (units "Could not load this."))

unfoldable pub policy_card : Query (List Revision) → Html ⊥
unfolding card_error
policy_card revisions = elim revisions.status [
  | failed e ↦ card_error e
  | succeeded ↦ elim (first? (get_or revisions.loaded [])) [
    | none ↦ el "p" [] (say "No policy yet")
    | some r ↦ el "p" [] (show (r.version ++ units " by " ++ get_or r.created_by dash))
  ]
  | pending ↦ elim (first? (get_or revisions.loaded [])) [
    | none ↦ []
    | some r ↦ el "p" [] (show (r.version ++ units " by " ++ get_or r.created_by dash))
  ]
]

-- `oldKeyCount`
unfoldable pub old_key_count : Me → List Machine → ℕ
unfolding is_old_key
old_key_count me machines = length (filter (λ m. is_old_key m me.signing_key_id) machines)

unfoldable pub machines_card : Me → Query (List Machine) → Html ⊥
unfolding card_error old_key_count
machines_card me query =
    let machines = get_or query.loaded [] in
    let old = old_key_count me machines in
    elim query.status [
      | failed e ↦ card_error e
      | succeeded ↦
          el "p" [] (show (decimal (length machines) ++ units " machines"))
          ++ (if ltb 0 old
              then el "p" [] (
                  show (
                    decimal old
                    ++ units " machine"
                    ++ (if old == 1 then [] else units "s")
                    ++ units " on an old key"))
              else [])
      | pending ↦ []
    ]

module _ (time_of : Text → Option ℤ) (format : ℤ → Span → Text) (now : ℤ) where
  -- The paragraph of a snapshot.
  unfoldable pub groups_text : GroupsView → Html ⊥
  unfolding synced_text
  groups_text g =
      el "p" [] (show (get_or g.source dash ++ units " · " ++ synced_text time_of format now g))

  unfoldable pub groups_card : Query (Option GroupsView) → Html ⊥
  unfolding card_error groups_text
  groups_card query = elim query.status [
    | failed e ↦ card_error e
    | succeeded ↦ elim (get_or query.loaded none) [
      | none ↦ el "p" [] (say "No group data yet")
      | some g ↦ groups_text g
    ]
    | pending ↦ elim (get_or query.loaded none) [ none ↦ [] | some g ↦ groups_text g ]
  ]

  unfoldable pub activity_item : AuditEvent → Html ⊥
  unfolding relative
  activity_item e = el "li" [] (
      show (
        e.actor
        ++ units " "
        ++ e.action
        ++ units " "
        ++ get_or e.target []
        ++ units " · "
        ++ relative time_of format e.at now))

  unfoldable pub activity_card : Query (List AuditEvent) → Html ⊥
  unfolding card_error activity_item
  activity_card query =
      let events = get_or query.loaded [] in
      elim query.status [
        | failed e ↦ card_error e
        | succeeded ↦
            if is_empty events
            then el "p" [] (say "No recent activity")
            else el "ul" [] (flat_map activity_item events)
        | pending ↦ if is_empty events then [] else el "ul" [] (flat_map activity_item events)
      ]

  unfoldable pub overview_page :
      Me
      → Query (List Revision)
      → Query (List Machine)
      → Query (Option GroupsView)
      → Query (List AuditEvent)
      → Html ⊥
  unfolding policy_card machines_card groups_card activity_card
  overview_page me revisions machines groups audit = el "div" [] (
      el "h1" [] (say "Overview")
      ++ el "div" [] (
          card "Policy" (policy_card revisions)
          ++ card "Machines" (machines_card me machines)
          ++ card "Groups" (groups_card groups)
          ++ card "Recent activity" (activity_card audit)))
