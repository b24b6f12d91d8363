-- ===== src/Examples/Overview.antt =====
-- The overview after two of its four requests failed.
use agentic_warden.Prelude.{
  Option, none, some, List, [], ◌∷◌, ◌++◌, Text, units, text_eq, nat_eq, ◌≡◌,
}
use agentic_warden.Prelude.{ℤ, pos}
use agentic_warden.Console.Types.{
  Me, Revision, Machine, GroupsView, AuditEvent, api_error, error, Query, succeeded, failed,
}
use agentic_warden.Console.Format.{Span}
use agentic_warden.Console.Overview.{overview_page}
use agentic_warden.Console.Overview.Failing.{overview_page-alerts}
use agentic_warden.View.Alerts.{alert_texts}

abbrev clock : Text → Option ℤ
clock t = none

abbrev span_text : ℤ → Span → Text
span_text n u = []

abbrev operator : Me
operator = record { user = units "ada"; expires_at = units "soon"; signing_key_id = none }

abbrev no_revisions : Query (List Revision)
no_revisions = record { status = succeeded; loaded = some [] }

abbrev no_machines : Query (List Machine)
no_machines = record { status = failed (api_error 503 (units "unavailable")); loaded = none }

abbrev no_groups : Query (Option GroupsView)
no_groups = record { status = succeeded; loaded = some none }

abbrev no_events : Query (List AuditEvent)
no_events = record { status = failed (error (units "network error")); loaded = some [] }

overview_page-alerts_example :
    alert_texts
      (overview_page clock span_text (pos 0) operator no_revisions no_machines no_groups no_events)
    ≡ [] ++ (units "unavailable" ∷ []) ++ [] ++ (units "network error" ∷ [])
overview_page-alerts_example =
    overview_page-alerts clock span_text (pos 0) operator no_revisions no_machines no_groups
      no_events
