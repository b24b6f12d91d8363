-- ===== src/Console/Policy/Session/Protocol.antt =====
-- What is seen of the policy screen of console/src/screens/policy.tsx from outside, and the protocol
-- of it.
use agentic_warden.Prelude.{
  ℕ, Bool, true, false, Option, none, some, List, [], ◌∷◌, ◌++◌, Text, units, text_eq, nat_eq, ◌≡◌,
}
use agentic_warden.Console.Types.{Json, null}
use agentic_warden.Console.Policy.Yaml.{valid, invalid, Document, parse_policy}
use agentic_warden.Console.Policy.Draft.{
  DraftState, current_changed, edited, review_clicked, dialog_closed, apply_clicked, applied,
  refused, DraftEffect, posted, done, invalidated, revisions_key, audit_key, version_of, DraftEvent,
}
use agentic_warden.Console.Policy.Editing.{
  EditingState, EditingEvent, editor_loaded, typed, happened,
}
use agentic_warden.Console.Policy.Editing.Reviewed.{review_of}
use agentic_warden.Console.Policy.Session.{SessionEvent, opened, row_toggled, queried, inside}

-- The form is closed; or it is open, with the value that was reviewed last, whether the dialog shows
-- it, and whether a request is under way.
pub data Phase : Type 0 where
  closed : Phase
  writing : Json → Bool → Bool → Phase

abbrev pub phase_in : Bool × Bool × Json → Phase
phase_in (is_pending, shown, value) = writing value shown is_pending

abbrev pub phase_of : Option EditingState → Phase
phase_of none = closed
phase_of (some form) = phase_in (review_of form.form)

-- What is seen of a run: a draft that is put up for review, and the effects.
pub data Sight : Type 0 where
  put_up : Text → Sight
  caused : DraftEffect → Sight

abbrev pub drafts_up : DraftState → DraftEvent → List Sight
drafts_up s review_clicked = put_up s.draft ∷ []
drafts_up s (current_changed c loaded) = []
drafts_up s (edited t) = []
drafts_up s dialog_closed = []
drafts_up s apply_clicked = []
drafts_up s applied = []
drafts_up s (refused e) = []

abbrev pub drafts_inside : EditingState → EditingEvent → List Sight
drafts_inside form editor_loaded = []
drafts_inside form (typed t moves) = []
drafts_inside form (happened event) = drafts_up form.form event

abbrev pub drafts_of : Option EditingState → SessionEvent → List Sight
drafts_of o opened = []
drafts_of o (row_toggled seq) = []
drafts_of o (queried q) = []
drafts_of none (inside event) = []
drafts_of (some form) (inside event) = drafts_inside form event

abbrev pub effects_of : List DraftEffect → List Sight → List Sight
effects_of [] seen = seen
effects_of (e ∷ es) seen = caused e ∷ effects_of es seen

-- What an event adds to what was seen before.
abbrev pub seen_after :
    Option EditingState → SessionEvent → List DraftEffect → List Sight → List Sight
seen_after o event es seen = effects_of es (drafts_of o event ++ seen)

-- The protocol of the screen, with no word on drafts, editors or queries, from what is seen, the
-- last first; the second argument is the status line. A draft that is put up is refused, or its
-- value stands in the dialog. Only a value in the dialog is requested, when no request is under way.
module _ (to_text : Json → Text) (parse_document : Text → Document) where
  pub data ScreenProtocol : Phase → Option Text → List Sight → Type 0 where
    quiet : ScreenProtocol closed none []
    opening :
        {t : Option Text} {seen : List Sight}
        → ScreenProtocol closed t seen
        → ScreenProtocol (writing null false false) t seen
    accepted :
        {t : Option Text} {seen : List Sight} {v : Json} {shown waiting : Bool} (draft : Text)
        (w : Json)
        → parse_policy parse_document draft ≡ valid w
        → ScreenProtocol (writing v shown waiting) t seen
        → ScreenProtocol (writing w true waiting) t (put_up draft ∷ seen)
    rejected :
        {t : Option Text} {seen : List Sight} {p : Phase} (draft message : Text) (line : ℕ)
        → parse_policy parse_document draft ≡ invalid message line
        → ScreenProtocol p t seen
        → ScreenProtocol p t (put_up draft ∷ seen)
    withdrawal :
        {t : Option Text} {seen : List Sight} {v : Json} {shown waiting : Bool}
        → ScreenProtocol (writing v shown waiting) t seen
        → ScreenProtocol (writing v false waiting) t seen
    request :
        {t : Option Text} {seen : List Sight} (v : Json)
        → ScreenProtocol (writing v true false) t seen
        → ScreenProtocol (writing v true true) t (caused (posted v) ∷ seen)
    refusal :
        {t : Option Text} {seen : List Sight} {v : Json} {shown : Bool}
        → ScreenProtocol (writing v shown true) t seen
        → ScreenProtocol (writing v false false) t seen
    announcement :
        {t : Option Text} {seen : List Sight} {shown : Bool} (v : Json)
        → ScreenProtocol (writing v shown true) t seen
        → ScreenProtocol closed (some (units "Applied " ++ version_of to_text v)) (
            caused (done (units "Applied " ++ version_of to_text v))
            ∷ caused (invalidated revisions_key)
            ∷ caused (invalidated audit_key)
            ∷ seen)
