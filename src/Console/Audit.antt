-- ===== src/Console/Audit.antt =====
-- console/src/screens/audit.tsx: the pages of the audit log, the newest first, and the two filters.
pub mod Pages
pub mod Texts
pub mod Options
use agentic_warden.Prelude.{
  ℕ, Bool, true, false, not, ◌&&◌, ◌||◌, Option, none, some, List, [], ◌∷◌, ◌++◌, flat_map, Text,
  units, text_eq, nat_eq, ◌==◌, if◌then◌else◌, length, filter, is_empty, last?, contains, get_or,
  truthy, ltb,
}
use agentic_warden.Prelude.{ℤ, includes}
use agentic_warden.Console.Types.{
  AuditEvent, Json, null, boolean, number, string, array, object, error_message, Query, pending,
  succeeded, failed,
}
use agentic_warden.Console.Format.{Span, relative}
use agentic_warden.Console.Parts.{dash, cell, row, table, alert, labelled, input}
use agentic_warden.View.{attr, flag, on, on_value, Html, el, say, show, decimal}

abbrev pub page_size : ℕ
page_size = 50

-- The path of `fetchAuditPage`.
unfoldable pub page_path : Option ℕ → Text
page_path none = units "/v1/audit?limit=" ++ decimal page_size
page_path (some before) =
    units "/v1/audit?limit=" ++ decimal page_size ++ units "&before=" ++ decimal before

-- `getNextPageParam`
unfoldable pub next_page : List AuditEvent → Option ℕ
next_page last_page =
    if length last_page == page_size
    then (elim (last? last_page) [ none ↦ none | some e ↦ some e.id ])
    else none

-- `new Set(events.map(...))`, in the order of the first occurrences.
unfoldable pub distinct_actions : List AuditEvent → List Text → List Text
distinct_actions [] seen = seen
distinct_actions (e ∷ es) seen =
    distinct_actions es (if contains seen e.action then seen else seen ++ e.action ∷ [])

-- `sort()` is by code units.
unfoldable pub text_after : Text → Text → Bool
text_after [] t = false
text_after (c ∷ s) [] = true
text_after (c ∷ s) (d ∷ t) =
    let rest = text_after s t in if ltb d c then true else if ltb c d then false else rest

unfoldable pub insert_text : Text → List Text → List Text
unfolding text_after
insert_text x [] = x ∷ []
insert_text x (y ∷ ys) =
    let rest = insert_text x ys in if text_after x y then y ∷ rest else x ∷ y ∷ ys

unfoldable pub sort_texts : List Text → List Text
unfolding insert_text
sort_texts [] = []
sort_texts (x ∷ xs) = insert_text x (sort_texts xs)

-- `actions`
unfoldable pub action_options : List AuditEvent → List Text
unfolding distinct_actions sort_texts
action_options events = units "All" ∷ sort_texts (distinct_actions events [])

pub record Filters : Type 0 where
  pub actor : Text
  pub action : Text

pub data AuditInput : Type 0 where
  actor_typed : Text → AuditInput
  action_chosen : Text → AuditInput
  older_clicked : AuditInput

abbrev pub no_filters : Filters
no_filters = record { actor = []; action = units "All" }

-- The handlers of the two filters; the button for older events is the query library's.
unfoldable pub filter_step : Filters → AuditInput → Filters
filter_step f (actor_typed value) = record f { actor = value }
filter_step f (action_chosen value) = record f { action = value }
filter_step f older_clicked = f

-- `to_lower` is `toLowerCase`.
module _ (to_lower : Text → Text) where
  unfoldable pub is_shown : Filters → AuditEvent → Bool
  is_shown f e =
      (f.actor == [] || includes (to_lower e.actor) (to_lower f.actor))
      && (f.action == units "All" || e.action == f.action)

  unfoldable pub shown_events : Filters → List (List AuditEvent) → List AuditEvent
  unfolding is_shown
  shown_events f pages = filter (is_shown f) (flat_map (λ page. page) pages)

-- Whether a value counts as true in a condition.
unfoldable pub json_truthy : Json → Bool
json_truthy null = false
json_truthy (boolean b) = b
json_truthy (number n) = not (n == units "0")
json_truthy (string t) = truthy t
json_truthy (array xs) = true
json_truthy (object ms) = true

-- `to_json` is `JSON.stringify`, `locale_time` the local form of a time.
module _ (to_lower : Text → Text) (to_json : Json → Text) (locale_time : Text → Text)
    (time_of : Text → Option ℤ) (format : ℤ → Span → Text) (now : ℤ) where
  unfoldable pub detail_text : Option Json → Text
  unfolding json_truthy
  detail_text none = dash
  detail_text (some v) = if json_truthy v then to_json v else dash

  unfoldable pub event_row : AuditEvent → Html AuditInput
  unfolding detail_text relative
  event_row e = row (
      cell (show (locale_time e.at ++ units " (" ++ relative time_of format e.at now ++ units ")"))
      ++ cell (show e.actor)
      ++ cell (show e.action)
      ++ cell (show (get_or e.target dash))
      ++ cell (el "code" [] (show (detail_text e.detail))))

  -- With the flags `hasNextPage` and `isFetchingNextPage` of the query.
  unfoldable pub audit_page :
      Filters → Query (List (List AuditEvent)) → Bool → Bool → Html AuditInput
  unfolding event_row shown_events action_options
  audit_page f query has_next is_fetching =
      let pages = get_or query.loaded [] in
      el "div" [] (
        el "h1" [] (say "Audit")
        ++ el "div" [] (
            labelled (units "audit-actor") (say "Actor")
              (input (units "audit-actor") f.actor actor_typed)
            ++ labelled (units "audit-action") (say "Action") (
                el "select"
                  (attr "id" (units "audit-action")
                    ∷ attr "value" f.action
                    ∷ on_value "change" action_chosen
                    ∷ [])
                  (flat_map (λ a. el "option" (attr "value" a ∷ []) (show a))
                    (action_options (flat_map (λ page. page) pages)))))
        ++ elim query.status [
          | failed e ↦ alert (error_message e (units "Could not load audit events."))
          | succeeded ↦
              if is_empty (shown_events to_lower f pages)
              then el "p" [] (say "No audit events")
              else table ("Time" ∷ "Actor" ∷ "Action" ∷ "Target" ∷ "Detail" ∷ [])
                  (flat_map event_row (shown_events to_lower f pages))
          | pending ↦ []
        ]
        ++ (if has_next
            then el "Button" (on "click" older_clicked ∷ flag "disabled" is_fetching ∷ [])
                (say "Older")
            else []))
