-- ===== src/Examples/Console.antt =====
-- The console at concrete answers, documents and machines.
use agentic_warden.Prelude.{
  inl, All, ℕ, ◌+◌, ◌*◌, ◌≤◌, ◌<◌, true, false, Option, none, some, List, [], ◌∷◌, ◌++◌, Text,
  units, text_beq, text_eq, nat_eq, ◌==◌, ==_refl, if◌then◌else◌, first?, ◌≡◌, ◌≢◌, ◌↔◌, false, ◌⊎◌,
  refl, arith,
}
use agentic_warden.Prelude.{throw, ℤ, pos, abs_ℤ, ◌-ℤ◌, Occurs, ends_with, trim}
use agentic_warden.Console.Types.{
  Json, null, string, object, Members, member, get_member, Machine, Me, api_error, error, Query,
  succeeded, failed,
}
use agentic_warden.Console.Api.{Response, error_text, read_response}
use agentic_warden.Console.Format.{Span, seconds, is_stale, relative}
use agentic_warden.Console.Format.Age.{relative_lem, IsNearest, Fits}
use agentic_warden.Console.Theme.{
  light, Browser, held, denied, is_dark, toggle, apply_stored_theme, current_theme,
}
use agentic_warden.Console.Theme.Stored.{toggle-apply_stored_theme}
use agentic_warden.Console.Types.{Failure}
use agentic_warden.Console.Session.{Key, first_is_me, on_query_error, sign_in, me_key}
use agentic_warden.Console.Session.Lost.{Failures, asked_again, LosesSession, asked_again-ends}
use agentic_warden.Prelude.{Occurs}
use agentic_warden.Console.Session.{NavItem, nav_items}
use agentic_warden.Console.App.{Route, closed, opened, find_route, app}
use agentic_warden.Console.App.Opened.{app_lem}
use agentic_warden.Console.Policy.Yaml.{YamlError, Document, parse_policy, last_line}
use agentic_warden.Console.Policy.Yaml.Lines.{parse_policy-line, count_breaks}
use agentic_warden.Console.Policy.Diff.{Part, line_diff}
use agentic_warden.Console.Policy.Diff.Rows.{
  line_diff-spells, is_before, is_after, unlines, lines_of, texts_of,
}
use agentic_warden.Console.Enrollment.{enroll_step}
use agentic_warden.Prelude.{ℕ, ◌*◌, take, flat_map}
use agentic_warden.Console.Types.{AuditEvent}
use agentic_warden.Console.Audit.{page_size}
use agentic_warden.Console.Audit.{action_options}
use agentic_warden.Console.Audit.Texts.{Ascending}
use agentic_warden.Console.Audit.Options.{all_events, chosen_events, action_options-chosen}
use agentic_warden.Console.Audit.Pages.{Serves, fetch_pages, fetch_pages-log}

console_code : Unit {0}
unfolding units text_beq read_response is_stale relative parse_policy enroll_step trim ends_with
    last_line
console_code = tt

abbrev quote : Json → Text
quote v = units "json"

abbrev forbidden : Response
forbidden = record { status = 403; status_text = units "Forbidden"; json = some null }

abbrev refused_by_name : Response
refused_by_name = record {
  status = 403;
  status_text = units "Forbidden";
  json = some (object (member (units "error") (string (units "not an admin")) Members.end));
}

refused_message : read_response quote refused_by_name ≡ throw (api_error 403 (units "not an admin"))
unfolding console_code get_member error_text
refused_message = refl

-- A failed response with the body null ends in no `ApiError`.
forbidden_null : read_response quote forbidden ≡ throw (error (units "TypeError"))
unfolding console_code
forbidden_null = refl

abbrev laptop : Machine
laptop = record {
  id = units "m1";
  user = units "ada";
  name = some (units "laptop");
  os = none;
  enrolled_at = units "t";
  last_seen_at = units "s";
  last_bundle_version = none;
  last_key_id = none;
}

abbrev clock : Text → Option ℤ
clock t = some (pos 1000)

abbrev span_text : ℤ → Span → Text
span_text k u = units "span"

relative_lem_example :
    ((relative clock span_text (units "s") (pos 200000) ≡ units "just now")
      × (abs_ℤ (pos 1000 -ℤ pos 200000) < 60000))
    ⊎ ((u : Span) × (k : ℤ) × (relative clock span_text (units "s") (pos 200000) ≡ span_text k u)
        × Fits u (pos 1000 -ℤ pos 200000)
        × IsNearest (seconds u * 1000) k (pos 1000 -ℤ pos 200000))
relative_lem_example = relative_lem clock span_text (units "s") (pos 200000) (pos 1000) refl

abbrev browser : Browser
browser = record { dark_class = false; storage = held none }

toggle-apply_stored_theme_example :
    ((toggle light browser).1.dark_class ≡ is_dark (toggle light browser).0)
    × ((toggle light browser).0 ≢ light)
    × (browser.storage ≢ denied
        → (current_theme (toggle light browser).1.storage false ≡ (toggle light browser).0)
          × ((apply_stored_theme false (toggle light browser).1).dark_class
              ≡ is_dark (toggle light browser).0))
    × (browser.storage ≡ denied
        → (apply_stored_theme false (toggle light browser).1).dark_class ≡ false)
toggle-apply_stored_theme_example = toggle-apply_stored_theme light false browser

abbrev machines_key : List Text
machines_key = units "machines" ∷ []

-- Two queries lose the session, and the session's own query fails after them.
abbrev two_lost : Failures
two_lost = (machines_key, api_error 401 []) ∷ (units "groups" ∷ [], api_error 403 []) ∷ []

abbrev me_lost : Failures
me_lost = (me_key, api_error 401 []) ∷ []

asked_again-ends_example :
    ((key : Key) → Occurs key (asked_again two_lost) → key ≡ me_key)
    × ((asked_again two_lost ≢ []) ↔ ((f : Key × Failure) × Occurs f two_lost × LosesSession f))
    × All (λ g. first_is_me g.0 ≡ true) me_lost
    × (asked_again me_lost ≡ [])
unfolding console_code on_query_error
asked_again-ends_example = asked_again-ends two_lost me_lost ((me_key, [], inl refl, refl), tt)

abbrev signed_out : Query Me
signed_out = record { status = failed (api_error 401 (units "no session")); loaded = none }

-- A parser that refuses every text at its line 9.
abbrev refuse_all : Text → Document
refuse_all t = record {
  errors = record { message = units "bad"; line = some 9 } ∷ [];
  value = null;
}

abbrev two_lines : Text
two_lines = units "a: [\nb\n"

abbrev last : ℕ
last = 2

from_one :
    (err : YamlError) (n : ℕ)
    → err.line ≡ some n
    → first? (refuse_all two_lines).errors ≡ some err
    → 1 ≤ n
from_one err n h e = ground arith

parse_policy-line_example :
    (1 ≤ last)
    × ((last ≤ count_breaks two_lines + (if ends_with two_lines (units "\n") then 0 else 1))
        ⊎ (last ≡ 1))
unfolding console_code
parse_policy-line_example = parse_policy-line refuse_all two_lines (units "bad") last from_one refl

abbrev changes : List Part
changes =
    record { value = units "a\n"; added = false; removed = false }
    ∷ record { value = units "b\n"; added = false; removed = true }
    ∷ record { value = units "c\n"; added = true; removed = false }
    ∷ []

line_diff-spells_example :
    (unlines (lines_of is_before (texts_of (line_diff {E = ⊥} changes))) ≡ units "a\nb\n")
    × (unlines (lines_of is_after (texts_of (line_diff {E = ⊥} changes))) ≡ units "a\nc\n")
unfolding console_code
line_diff-spells_example =
    line_diff-spells ⊥ changes (units "a\nb\n") (units "a\nc\n")
      ((refl, refl), ((refl, refl), ((refl, refl), tt))) refl refl

abbrev event : ℕ → AuditEvent
event n = record {
  id = n;
  at = units "t";
  actor = units "ada";
  action = units "login";
  target = none;
  detail = none;
}

-- A server with two events.
abbrev audit_log : List AuditEvent
audit_log = event 2 ∷ event 1 ∷ []

abbrev serve_two : Option ℕ → List AuditEvent
serve_two none = audit_log
serve_two (some n) = if n == 2 then event 1 ∷ [] else []

serve_two-Serves : Serves audit_log serve_two
serve_two-Serves = (refl, splits)
  where
    splits :
        (newer : List AuditEvent) (e : AuditEvent) (older : List AuditEvent)
        → audit_log ≡ newer ++ e ∷ older
        → serve_two (some e.id) ≡ take page_size older
    splits [] e older h = ground arith
    splits (x ∷ []) e older h = ground arith
    splits (x ∷ y ∷ []) e older h = cc
    splits (x ∷ y ∷ z ∷ zs) e older h = cc

fetch_pages-log_example :
    flat_map (λ page. page) (fetch_pages audit_log serve_two 3 none)
    ≡ take (3 * page_size) audit_log
fetch_pages-log_example = fetch_pages-log audit_log serve_two 3 serve_two-Serves

app_lem_example :
    ((me : Me) (r : Route)
      → (app text_beq signed_out (units "/audit") ≡ some (opened me r)) ↔ (
          (signed_out.status ≡ succeeded)
          × (signed_out.loaded ≡ some me)
          × (find_route text_beq (units "/audit") ≡ some r)))
    × ((app text_beq signed_out (units "/audit") ≡ some (closed sign_in))
        ↔ ((m : Text) × (signed_out.status ≡ failed (api_error 401 m))))
    × ((me : Me) (i : NavItem)
        → signed_out.status ≡ succeeded
        → signed_out.loaded ≡ some me
        → Occurs i nav_items
        → (r : Route) × (app text_beq signed_out i.to ≡ some (opened me r)))
app_lem_example = app_lem text_beq signed_out (units "/audit") ==_refl

action_options-chosen_example :
    (Occurs (units "login") (action_options (all_events (audit_log ∷ []))) ↔ (
      (units "login" ≡ units "All")
      ⊎ (chosen_events (λ s. s) (audit_log ∷ []) (units "login") ≢ [])))
    × ((options : List Text) × (action_options (all_events (audit_log ∷ []))
          ≡ units "All" ∷ options)
        × Ascending options)
action_options-chosen_example = action_options-chosen (λ s. s) (audit_log ∷ []) (units "login")
