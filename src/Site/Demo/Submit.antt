-- ===== src/Site/Demo/Submit.antt =====
-- web/lib/demo/submit.ts: what the site does with a posted form. A run returns the state for the
-- page and the effects in their order: messages handed to the sender, and lines of the log.
pub mod Outcomes
pub mod Errors
use agentic_warden.Prelude.{
  ℕ, Bool, true, false, not, String, Option, none, some, List, [], ◌∷◌, ◌++◌, map, Text, units,
  truthy, get_or, if◌then◌else◌, includes, ◌&&◌, text_eq, Equality, ◌==◌, ◌||◌, is_some,
}
use agentic_warden.Platform.{Platform}
use agentic_warden.Site.Demo.Schema
use agentic_warden.Site.Demo.Schema.{
  DemoField, Value, undefined, text, texts, DemoRequest, Issue, Parsed, success, failure, SafeParse,
  demo_schema, parse_plan, field_eq,
}
use agentic_warden.Site.Demo.Email.{format_email}
use agentic_warden.Site.Demo.Sender.{
  Message, Sender, Sent, delivered, threw, Thrown, Status, absent, number, other,
}

-- An entry of a `FormData`: a text or a file.
pub data Entry : Type 0 where
  field : Text → Entry
  file : Entry

abbrev pub FormData : Type 0
FormData = List (Text × Entry)

-- `form.get(key)`: the first entry of that name.
unfoldable pub get_entry : FormData → Text → Option Entry
get_entry [] key = none
get_entry ((k, e) ∷ form) key = if k == key then some e else get_entry form key

-- `form.getAll(key)`, kept to the texts.
unfoldable pub get_all_texts : FormData → Text → List Text
get_all_texts [] key = []
get_all_texts ((k, field t) ∷ form) key =
    let rest = get_all_texts form key in if k == key then t ∷ rest else rest
get_all_texts ((k, file) ∷ form) key = get_all_texts form key

-- `typeof v === "string" ? v : ""`
abbrev pub entry_text : Option Entry → Text
entry_text (some (field t)) = t
entry_text _ = []

pub record Values : Type 0 where
  pub name : Text
  pub email : Text
  pub company : Text
  pub size : Text
  pub deployment : Text
  pub plan : Text
  pub message : Text
  pub agents : List Text

unfoldable pub read_values : FormData → Values
unfolding get_entry get_all_texts
read_values form = record {
  name = entry_text (get_entry form (units "name"));
  email = entry_text (get_entry form (units "email"));
  company = entry_text (get_entry form (units "company"));
  size = entry_text (get_entry form (units "size"));
  deployment = entry_text (get_entry form (units "deployment"));
  plan = entry_text (get_entry form (units "plan"));
  message = entry_text (get_entry form (units "message"));
  agents = get_all_texts form (units "agents");
}

abbrev pub FieldErrors : Type 0
FieldErrors = List (DemoField × Text)

pub data DemoState : Type 0 where
  idle : DemoState
  ok : DemoState
  invalid : FieldErrors → Values → DemoState
  failed : Option Text → Values → DemoState

-- The `detail` of a line of the log: empty, or the error's name and its status.
pub data Detail : Type 0 where
  nothing : Detail
  error_detail : Text → Option ℕ → Detail

pub data Effect : Type 0 where
  handed_over : Message → Effect
  logged : Text → Detail → Effect

pub record Outcome : Type 0 where
  pub state : DemoState
  pub effects : List Effect

abbrev pub min_fill_ms : ℕ
min_fill_ms = 3000

-- `x || null` as a condition
abbrev pub given : Option Text → Bool
given none = false
given (some t) = truthy t

-- `err` in the `catch`.
unfoldable pub error_detail_of : Thrown → Detail
error_detail_of err =
    error_detail (get_or err.error_name (units "unknown"))
      (elim err.status [ number n ↦ some n | _ ↦ none ])

unfoldable pub lookup_error : FieldErrors → DemoField → Option Text
lookup_error [] f = none
lookup_error ((g, m) ∷ errors) f = if g == f then some m else lookup_error errors f

-- `fieldErrors[field] ??= issue.message`
unfoldable pub add_issue : FieldErrors → Issue → FieldErrors
add_issue errors i =
    if is_some (lookup_error errors i.field) then errors else errors ++ (i.field, i.message) ∷ []

-- The loop over the issues.
unfoldable pub collect_issues : FieldErrors → List Issue → FieldErrors
unfolding add_issue lookup_error
collect_issues errors [] = errors
collect_issues errors (i ∷ is) = collect_issues (add_issue errors i) is

-- What is given to `safeParse`.
unfoldable pub parse_input : Values → DemoField → Value
parse_input v DemoField.name = text v.name
parse_input v DemoField.email = text v.email
parse_input v DemoField.company = text v.company
parse_input v DemoField.size = text v.size
parse_input v DemoField.agents = texts v.agents
parse_input v DemoField.deployment = text v.deployment
parse_input v DemoField.plan = elim (parse_plan (text v.plan)) [
  | none ↦ undefined
  | some t ↦ text t
]
parse_input v DemoField.message = if truthy v.message then text v.message else undefined

-- A missing or unreadable time stamp skips the check.
module _ (p : Platform) where
  unfoldable pub stamp_too_fast : Entry → p.Number → Bool
  stamp_too_fast file now = false
  stamp_too_fast (field raw) now =
      truthy raw
      && (p.is_finite (p.number raw) && p.lt (p.sub now (p.number raw)) (p.of_ℕ min_fill_ms))

  -- The dependencies of a run; `now` is what the clock says.
  pub record SubmitDeps : Type 0 where
    pub send : Option Sender
    pub inbox : Option Text
    pub sender : Option Text
    pub now : p.Number

  unfoldable pub too_fast : FormData → p.Number → Bool
  unfolding get_entry stamp_too_fast
  too_fast form now = elim (get_entry form (units "startedAt")) [
    | none ↦ false
    | some e ↦ stamp_too_fast e now
  ]

  unfoldable pub is_spam : FormData → p.Number → Bool
  unfolding get_entry too_fast
  is_spam form now = truthy (entry_text (get_entry form (units "website"))) || too_fast form now
  -- The text of a message for a parsed request.

abbrev pub message_of : Text → Text → DemoRequest → Message
message_of inbox sender req = record {
  to = inbox;
  sender = sender;
  reply_to = req.email;
  subject = (format_email req).subject;
  body = (format_email req).body;
}

-- The `try` with its `catch`.
unfoldable pub deliver : Sender → Text → Text → Values → DemoRequest → Outcome
deliver send inbox sender values req = elim (send (message_of inbox sender req)) [
  | delivered ↦ record { state = ok; effects = handed_over (message_of inbox sender req) ∷ [] }
  | threw err ↦ record {
    state = failed (some inbox) values;
    effects =
        handed_over (message_of inbox sender req)
        ∷ logged (units "demo: send failed") (error_detail_of err)
        ∷ [];
  }
]

abbrev unconfigured : Option Text → Values → Outcome
unconfigured inbox values = record {
  state = failed inbox values;
  effects = logged (units "demo: sender not configured") nothing ∷ [];
}

-- `!deps.send || !deps.inbox || !deps.from`, and what follows it.
unfoldable pub send_request :
    Option Sender → Option Text → Option Text → Values → DemoRequest → Outcome
unfolding deliver
send_request none inbox sender values req = unconfigured inbox values
send_request (some send) none sender values req = unconfigured none values
send_request (some send) (some inbox) none values req = unconfigured (some inbox) values
send_request (some send) (some inbox) (some sender) values req =
    if truthy inbox && truthy sender
    then deliver send inbox sender values req
    else unconfigured (some inbox) values

module _ (p : Platform) (safe_parse : SafeParse) where
  unfoldable pub submit_demo : FormData → SubmitDeps p → Outcome
  unfolding collect_issues send_request
  submit_demo form deps =
      if is_spam p form deps.now
      then record { state = ok; effects = [] }
      else (let values = read_values form in
          elim (safe_parse demo_schema (parse_input values)) [
            | failure issues ↦ record {
              state = invalid (collect_issues [] issues) values;
              effects = [];
            }
            | success req ↦ send_request deps.send deps.inbox deps.sender values req
          ])
