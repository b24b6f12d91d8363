-- ===== src/Site/Demo/Submit/Errors.antt =====
-- The pages that a run ends in when it does not succeed.
use agentic_warden.Prelude.{
  ℕ, suc, Bool, true, false, Option, none, some, List, [], ◌∷◌, ◌++◌, Text, text_eq, nat_eq, ◌==◌,
  ==_iff, if◌then◌else◌, ◌≡◌, ◌≢◌, refl, arith,
}
use agentic_warden.Platform.{Platform}
use agentic_warden.Site.Demo.Schema.{
  DemoField, field_eq, DemoRequest, Issue, Parsed, success, failure, SafeParse, demo_schema,
}
use agentic_warden.Site.Demo.Sender.{Sender}
use agentic_warden.Site.Demo.Submit.{
  FormData, read_values, parse_input, Values, FieldErrors, lookup_error, add_issue, collect_issues,
  invalid, failed, Effect, handed_over, logged, SubmitDeps, is_spam, send_request, submit_demo,
}

-- The first issue of a field.
abbrev pub first_issue : List Issue → DemoField → Option Text
first_issue [] f = none
first_issue (i ∷ is) f = if i.field == f then some i.message else first_issue is f

abbrev pub or_first : Option Text → Option Text → Option Text
or_first none d = d
or_first (some t) d = some t

lookup_error-append :
    (errors : FieldErrors) (g f : DemoField) (m : Text)
    → lookup_error (errors ++ (g, m) ∷ []) f
      ≡ or_first (lookup_error errors f) (if g == f then some m else none)
unfolding lookup_error
lookup_error-append [] g f m = ground arith
lookup_error-append ((h, n) ∷ errors) g f m = ground (arith, lookup_error-append errors g f m)

lookup_error-add_issue :
    (errors : FieldErrors) (i : Issue) (f : DemoField)
    → lookup_error (add_issue errors i) f
      ≡ or_first (lookup_error errors f) (if i.field == f then some i.message else none)
unfolding add_issue
lookup_error-add_issue errors i f =
    ground (arith, lookup_error-append errors i.field f i.message, ==_iff i.field f)

lookup_error-collect_issues :
    (errors : FieldErrors) (is : List Issue) (f : DemoField)
    → lookup_error (collect_issues errors is) f
      ≡ or_first (lookup_error errors f) (first_issue is f)
unfolding collect_issues
lookup_error-collect_issues errors [] f = ground arith
lookup_error-collect_issues errors (i ∷ is) f = ground (
  arith,
  lookup_error-collect_issues (add_issue errors i) is f,
  lookup_error-add_issue errors i f,
)

-- The lines of the log among the effects of a run.
abbrev pub count_logs : List Effect → ℕ
count_logs [] = 0
count_logs (handed_over m ∷ es) = count_logs es
count_logs (logged t d ∷ es) = suc (count_logs es)

send_request-ne-invalid :
    (s : Option Sender) (i f : Option Text) (v w : Values) (req : DemoRequest) (es : FieldErrors)
    → (send_request s i f v req).state ≢ invalid es w
unfolding send_request
send_request-ne-invalid none i f v w req es = cc
send_request-ne-invalid (some s) none f v w req es = cc
send_request-ne-invalid (some s) (some i) none v w req es = cc
send_request-ne-invalid (some s) (some i) (some f) v w req es = ground arith

send_request-failed :
    (s : Option Sender) (i f shown : Option Text) (v w : Values) (req : DemoRequest)
    → (send_request s i f v req).state ≡ failed shown w
    → (shown ≡ i) × (w ≡ v) × (count_logs (send_request s i f v req).effects ≡ 1)
unfolding send_request
send_request-failed none i f shown v w req h = ground arith
send_request-failed (some s) none f shown v w req h = ground arith
send_request-failed (some s) (some i) none shown v w req h = ground arith
send_request-failed (some s) (some i) (some f) shown v w req h = ground arith

module _ (p : Platform) (safe_parse : SafeParse) where
  -- The page of field errors is shown for a form that is no spam and does not parse. It carries the
  -- values as they were typed, each field shows its first issue and the others none, and the run
  -- has no effect.
  pub submit_demo-invalid :
      (form : FormData) (deps : SubmitDeps p) (errors : FieldErrors) (values : Values)
      → (submit_demo p safe_parse form deps).state ≡ invalid errors values
      → (issues : List Issue) × (safe_parse demo_schema (parse_input (read_values form))
          ≡ failure issues)
        × (is_spam p form deps.now ≡ false)
        × (values ≡ read_values form)
        × ((f : DemoField) → lookup_error errors f ≡ first_issue issues f)
        × ((submit_demo p safe_parse form deps).effects ≡ [])
  unfolding submit_demo
  submit_demo-invalid form deps errors values h =
      go (is_spam p form deps.now) refl (safe_parse demo_schema (parse_input (read_values form)))
        refl
    where
      go :
          (b : Bool)
          → is_spam p form deps.now ≡ b
          → (r : Parsed) → safe_parse demo_schema (parse_input (read_values form)) ≡ r
          → (issues : List Issue) × (safe_parse demo_schema (parse_input (read_values form))
              ≡ failure issues)
            × (is_spam p form deps.now ≡ false)
            × (values ≡ read_values form)
            × ((f : DemoField) → lookup_error errors f ≡ first_issue issues f)
            × ((submit_demo p safe_parse form deps).effects ≡ [])
      go true spam r e = absurd (ground arith)
      go false real (failure is) e =
          let same : collect_issues [] is ≡ errors = ground arith in
          (
            is,
            e,
            real,
            ground arith,
            λ f. rw (← same) (lookup_error-collect_issues [] is f),
            ground arith,
          )
      go false real (success req) e = absurd (
          send_request-ne-invalid deps.send deps.inbox deps.sender (read_values form) values req
            errors (ground arith))

  -- The failure page shows the configured inbox and the values as they were typed, and one line has
  -- been written to the log.
  pub submit_demo-failed :
      (form : FormData) (deps : SubmitDeps p) (shown : Option Text) (values : Values)
      → (submit_demo p safe_parse form deps).state ≡ failed shown values
      → (shown ≡ deps.inbox)
        × (values ≡ read_values form)
        × (count_logs (submit_demo p safe_parse form deps).effects ≡ 1)
  unfolding submit_demo
  submit_demo-failed form deps shown values h =
      ground (
        arith,
        send_request-failed deps.send deps.inbox deps.sender shown (read_values form) values,
      )
