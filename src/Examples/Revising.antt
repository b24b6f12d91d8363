-- ===== src/Examples/Revising.antt =====
-- The policy screen with its form, at concrete events.
use agentic_warden.Prelude.{
  ℕ, true, none, some, List, [], ◌∷◌, Text, units, text_beq, text_eq, nat_eq, is_some, ◌≡◌, inl,
  inr, flat_map, refl,
}
use agentic_warden.Prelude.{trim, ends_with}
use agentic_warden.View.{decimal}
use agentic_warden.Console.Types.{Json, null, Revision, Query, succeeded}
use agentic_warden.Console.Policy.Yaml.{Document, parse_policy, last_line}
use agentic_warden.Console.Policy.Draft.{
  review_clicked, apply_clicked, applied, DraftEffect, posted, done, invalidated, revisions_key,
  audit_key, version_of, initial_draft, current_yaml, draft_step,
}
use agentic_warden.Console.Policy.Editing.{
  Moves, EditingState, editor_loaded, typed, happened, render_values, editing_step, start_editing,
}
use agentic_warden.Console.Policy.Screen.{policy_step}
use agentic_warden.Console.Policy.Session.{
  PolicySession, SessionEvent, opened, row_toggled, queried, inside, session_step, start_session,
}
use agentic_warden.Console.Policy.Diff.{Part, line_diff, diff_rows}
use agentic_warden.Console.Policy.Draft.Page.{new_revision}
use agentic_warden.Console.Policy.Session.Protocol.{Sight, put_up, caused, phase_of, ScreenProtocol}
use agentic_warden.Console.Policy.Session.Phases.{
  SessionRun, loaded, onward, SessionRun-ScreenProtocol,
}
use agentic_warden.Console.Policy.Session.Typing.{session_after, session_after-typed}

session_code : Unit {0}
unfolding units text_beq parse_policy draft_step initial_draft current_yaml editing_step
    start_editing render_values version_of trim last_line ends_with decimal session_step
    start_session policy_step new_revision line_diff diff_rows flat_map
session_code = tt

abbrev quote : Json → Text
quote v = units "json"

abbrev accept_all : Text → Document
accept_all t = record { errors = []; value = null }

abbrev lines_in : Text → ℕ
lines_in t = 1

abbrev at_line : Text → ℕ → ℕ
at_line t n = 0

abbrev as_is : Text → Text
as_is t = t

abbrev all_gone : Text → Text → Moves
all_gone old new p = none

abbrev no_parts : Text → Text → List Part
no_parts before after = []

abbrev step : PolicySession → SessionEvent → PolicySession × List DraftEffect
step = session_step lines_in at_line as_is all_gone quote quote accept_all

abbrev Run : PolicySession → List Sight → Type 0
Run = SessionRun lines_in at_line as_is all_gone quote quote accept_all no_parts

abbrev one_revision : Query (List Revision)
one_revision = record {
  status = succeeded;
  loaded = some (
      record { seq = 1; version = units "v1"; rule_set = null; created_at = []; created_by = none }
      ∷ []);
}

abbrev begun : PolicySession
begun = start_session

abbrev answered : PolicySession
answered = (step begun (queried one_revision)).0

abbrev shown : PolicySession
shown = (step answered opened).0

abbrev writing_state : PolicySession
writing_state = (step shown (inside editor_loaded)).0

abbrev reviewed : PolicySession
reviewed = (step writing_state (inside (happened review_clicked))).0

abbrev sent : PolicySession
sent = (step reviewed (inside (happened apply_clicked))).0

abbrev finished : PolicySession
finished = (step sent (inside (happened applied))).0

opened-Run : Run writing_state []
unfolding session_code
opened-Run =
    onward (onward (onward loaded (queried one_revision) tt refl) opened tt refl)
      (inside editor_loaded) (_, refl, tt) refl

abbrev sights : List Sight
sights =
    caused (done (units "Applied "))
    ∷ caused (invalidated revisions_key)
    ∷ caused (invalidated audit_key)
    ∷ caused (posted null)
    ∷ put_up (units "json")
    ∷ []

finished-Run : Run finished sights
unfolding session_code
finished-Run =
    onward
      (onward (onward opened-Run (inside (happened review_clicked)) (_, refl, tt) refl)
        (inside (happened apply_clicked)) (_, refl, inr (inr (inl refl))) refl)
      (inside (happened applied)) (_, refl, refl) refl

SessionRun-ScreenProtocol_example :
    (finished.screen.creating ≡ is_some finished.editing)
    × ScreenProtocol quote accept_all (phase_of finished.editing) finished.screen.status sights
SessionRun-ScreenProtocol_example =
    SessionRun-ScreenProtocol lines_in at_line as_is all_gone quote quote accept_all no_parts
      finished-Run

abbrev typing : PolicySession
typing = (step writing_state (inside (typed (units "x") (λ p. none)))).0

typing-Run : Run typing []
unfolding session_code
typing-Run = onward opened-Run (inside (typed (units "x") (λ p. none))) (_, refl, tt) refl

abbrev no_revisions : Query (List Revision)
no_revisions = record { status = succeeded; loaded = some [] }

abbrev typed_form : EditingState
typed_form = record {
  form = record (initial_draft quote quote accept_all none) { draft = units "x"; touched = true };
  editor = some (record { doc = units "x"; mark = none });
}

session_after-typed_example :
    (session_after lines_in at_line as_is all_gone quote quote accept_all typing
      (queried no_revisions ∷ row_toggled 1 ∷ opened ∷ [])).editing
    ≡ some typed_form
unfolding session_code
session_after-typed_example =
    session_after-typed lines_in at_line as_is all_gone quote quote accept_all typing-Run typed_form
      refl refl (queried no_revisions ∷ row_toggled 1 ∷ opened ∷ []) (tt, (tt, (tt, tt)))
