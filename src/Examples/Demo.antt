-- ===== src/Examples/Demo.antt =====
-- The demo request at concrete forms, with a small validator in the place of the library's.
use agentic_warden.Prelude.{
  ℕ, ◌+◌, ◌-◌, ◌*◌, text_beq, Bool, true, false, ◌&&◌, String, Option, none, some, List, [], ◌∷◌,
  map, Text, units, text_eq, nat_eq, if◌then◌else◌, is_some, truthy, ◌≡◌, ◌↔◌, ◌⊎◌, refl, ltb, leb,
}
use agentic_warden.Platform.{Platform}
use agentic_warden.Site.Env.{Env}
use agentic_warden.Site.Demo.Schema.{
  DemoField, Value, text, texts, DemoRequest, Issue, success, failure, SafeParse, demo_schema,
}
use agentic_warden.Site.Demo.Sender.{
  Message, Sender, threw, Status, fake_sender, ResendClient, refused,
}
use agentic_warden.Site.Demo.Email.{format_email}
use agentic_warden.Site.Demo.Submit.{
  FormData, field, read_values, parse_input, lookup_error, ok, SubmitDeps, is_spam, message_of,
  submit_demo, collect_issues,
}
use agentic_warden.Site.Demo.Submit.Outcomes.{
  handed, IsDelivered, submit_demo-ok_iff, IsGenuine, submit_demo-handed,
}
use agentic_warden.Site.Demo.Submit.Errors.{
  first_issue, count_logs, submit_demo-invalid, submit_demo-failed,
}
use package.text.Mathlib.Text.{◌==◌ as str_eq}

abbrev pub digits_value : ℕ → Text → Option ℕ
digits_value n [] = some n
digits_value n (c ∷ s) =
    let more = digits_value (n * 10 + (c - b'0')) s in
    if leb b'0' c && leb c b'9' then more else none

abbrev pub opt_lt : Option ℕ → Option ℕ → Bool
opt_lt (some a) (some b) = ltb a b
opt_lt _ _ = false

abbrev pub opt_sub : Option ℕ → Option ℕ → Option ℕ
opt_sub (some a) (some b) = some (a - b)
opt_sub _ _ = none

-- Numbers without a sign or a fraction; NaN is `none`.
abbrev pub small : Platform
small = record {
  Number = Option ℕ;
  of_ℕ = some;
  number = digits_value 0;
  is_finite = is_some;
  sub = opt_sub;
  lt = opt_lt;
  to_lower = λ s. s;
  keep_letters = λ s. s;
}

abbrev pub text_of : Value → Text
text_of (text t) = t
text_of _ = []

abbrev pub texts_of : Value → List Text
texts_of (texts ts) = ts
texts_of _ = []

abbrev pub request : (DemoField → Value) → DemoRequest
request v = record {
  name = text_of (v DemoField.name);
  email = text_of (v DemoField.email);
  company = text_of (v DemoField.company);
  size = text_of (v DemoField.size);
  agents = texts_of (v DemoField.agents);
  deployment = text_of (v DemoField.deployment);
  plan = none;
  message = none;
}

abbrev pub bad_email : Issue
bad_email = record { field = DemoField.email; message = units "Enter a valid email address." }

-- Wants an e-mail address and nothing else.
abbrev pub validate : SafeParse
validate schema v =
    if truthy (text_of (v DemoField.email)) then success (request v) else failure (bad_email ∷ [])

abbrev pub stamped : FormData → FormData
stamped form = (units "startedAt", field (units "1000")) ∷ form

abbrev pub good_form : FormData
good_form = stamped (
    (units "company", field (units "A\nB"))
    ∷ (units "email", field (units "a@b.c"))
    ∷ (units "agents", field (units "codex"))
    ∷ [])

abbrev bad_form : FormData
bad_form = stamped ((units "company", field (units "Acme")) ∷ [])

abbrev pub deps : Sender → SubmitDeps small
deps s = record {
  send = some s;
  inbox = some (units "in@x.test");
  sender = some (units "site@x.test");
  now = some 9000;
}

demo : Unit {0}
unfolding submit_demo units text_beq is_spam read_values parse_input fake_sender format_email
demo = tt

abbrev pub refusing : Sender
refusing m = threw (record { error_name = none; status = Status.absent })

thanked : (submit_demo small validate good_form (deps fake_sender)).state ≡ ok
unfolding demo
thanked = refl

subject :
    map (λ m. m.subject) (handed (submit_demo small validate good_form (deps fake_sender)).effects)
    ≡ units "Demo request: A B (no plan)" ∷ []
unfolding demo
subject = refl

hurried :
    submit_demo small validate good_form (record (deps fake_sender) { now = some 3999 })
    ≡ record { state = ok; effects = [] }
unfolding demo
hurried = refl

submit_demo-ok_iff_example :
    ((submit_demo small validate good_form (deps fake_sender)).state ≡ ok) ↔ (
      (is_spam small good_form (some 9000) ≡ true)
      ⊎ IsDelivered small validate good_form (deps fake_sender))
submit_demo-ok_iff_example = submit_demo-ok_iff small validate good_form (deps fake_sender)

submit_demo-handed_example :
    IsGenuine small validate good_form (deps fake_sender) (
      message_of
        (units "in@x.test")
        (units "site@x.test")
        (request (parse_input (read_values good_form))))
    × (◌≡◌ {A = List Message} [] [])
unfolding demo
submit_demo-handed_example =
    submit_demo-handed small validate good_form (deps fake_sender) _ [] refl

submit_demo-invalid_example :
    (issues : List Issue) × (validate demo_schema (parse_input (read_values bad_form))
      ≡ failure issues)
    × (is_spam small bad_form (some 9000) ≡ false)
    × (read_values bad_form ≡ read_values bad_form)
    × ((f : DemoField) → lookup_error (collect_issues [] (bad_email ∷ [])) f ≡ first_issue issues f)
    × ((submit_demo small validate bad_form (deps fake_sender)).effects ≡ [])
unfolding demo
submit_demo-invalid_example =
    submit_demo-invalid small validate bad_form (deps fake_sender)
      (collect_issues [] (bad_email ∷ [])) (read_values bad_form) refl

submit_demo-failed_example :
    (some (units "in@x.test") ≡ some (units "in@x.test"))
    × (read_values good_form ≡ read_values good_form)
    × (count_logs (submit_demo small validate good_form (deps refusing)).effects ≡ 1)
unfolding demo
submit_demo-failed_example =
    submit_demo-failed small validate good_form (deps refusing) _ (read_values good_form) refl

abbrev production : Env
production key = if str_eq key "VERCEL_ENV" then some (units "production") else some (drop_test key)
  where
    drop_test : String → Text
    drop_test k = if str_eq k "DEMO_SENDER" then [] else units "set"

abbrev down : ResendClient
down key m = refused (some 503)
