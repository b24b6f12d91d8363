-- ===== src/Examples/Retry.antt =====
-- The demo form in a browser that leaves texts as they are, posted as it is shown.
use agentic_warden.Prelude.{
  ℕ, ◌+◌, ◌-◌, ◌*◌, true, false, ◌&&◌, none, some, [], ◌∷◌, Text, units, text_beq, text_eq, nat_eq,
  ◌≡◌, inl, inr, refl, ap, ◌∙◌, arith, leb,
}
use agentic_warden.Prelude.{all_units, is_digit}
use agentic_warden.View.{decimal}
use agentic_warden.View.Decimal.{value, value-decimal, decimal-IsNumber}
use agentic_warden.Site.Demo.Schema.{
  size_options, agent_options, deployment_options, DemoRequest, success, demo_schema,
}
use agentic_warden.Site.Demo.Sender.{Sender, delivered}
use agentic_warden.Site.Demo.Submit.{
  read_values, parse_input, FormData, field, ok, failed, handed_over, is_spam, message_of,
  submit_demo,
}
use agentic_warden.Site.Demo.Form.{values_of}
use agentic_warden.Site.Demo.Form.Page.{tiers}
use agentic_warden.Site.Demo.Form.Reposted.{CountsMs}
use agentic_warden.Site.Demo.Form.Retry.{
  WerePosted, posted_form, read_values-posted_form, submit_demo-posted_form,
}
use agentic_warden.Examples.Demo.{small, digits_value, validate, deps, refusing}

form_code : Unit {0}
unfolding units text_beq submit_demo read_values parse_input is_spam values_of size_options
    agent_options deployment_options tiers
form_code = tt

digits_value-value :
    (n : ℕ) (t : Text) → all_units is_digit t ≡ true → digits_value n t ≡ some (value n t)
unfolding value
digits_value-value n [] h = refl
digits_value-value n (c ∷ t) h =
    let digit : (leb b'0' c && leb c b'9') ≡ true = ground arith in
    rw (digit) (digits_value-value (n * 10 + (c - b'0')) t (ground arith))

small-CountsMs : CountsMs small
small-CountsMs = (
  λ n. digits_value-value 0 (decimal n) (decimal-IsNumber n).1 ∙ ap some (value-decimal n),
  λ n. refl,
  λ m n h. refl,
  λ m n. refl,
)

abbrev untouched : Text → Text → Text
untouched name t = t

abbrev willing : Sender
willing m = delivered

-- A form that was filled in completely.
abbrev full_form : FormData
full_form =
    (units "startedAt", field (units "1000"))
    ∷ (units "name", field (units "Ann"))
    ∷ (units "email", field (units "a@b.c"))
    ∷ (units "company", field (units "Acme"))
    ∷ (units "size", field (units "500+"))
    ∷ (units "agents", field (units "codex"))
    ∷ (units "agents", field (units "other"))
    ∷ (units "deployment", field (units "unsure"))
    ∷ (units "plan", field (units "enterprise"))
    ∷ (units "message", field (units "Hi\r\nthere"))
    ∷ []

full_form-WerePosted : WerePosted untouched (read_values full_form)
unfolding form_code
full_form-WerePosted = record {
  name_kept = refl;
  email_kept = refl;
  company_kept = refl;
  message_kept = refl;
  size_fits = inr (inr (inr (inl refl)));
  deployment_fits = inr (inr (inr (inl refl)));
  plan_fits = inr (inr (inr (inl refl)));
  agents_ticked = refl;
}

read_values-posted_form_example :
    read_values (posted_form untouched none 1000 false false (failed none (read_values full_form)))
    ≡ read_values full_form
unfolding form_code
read_values-posted_form_example =
    read_values-posted_form untouched none 1000 false false (failed none (read_values full_form))
      (read_values full_form) refl full_form-WerePosted

submit_demo-posted_form_example :
    (req : DemoRequest) × (validate demo_schema (parse_input (read_values full_form)) ≡ success req)
    × (submit_demo small validate
          (posted_form untouched none 1000 false false
            (failed (some (units "in@x.test")) (read_values full_form)))
          (deps willing)
        ≡ record {
          state = ok;
          effects = handed_over (message_of (units "in@x.test") (units "site@x.test") req) ∷ [];
        })
unfolding form_code
submit_demo-posted_form_example =
    submit_demo-posted_form small validate full_form (deps refusing) (deps willing)
      (some (units "in@x.test")) (read_values full_form) untouched none 1000 9000 false false
      willing (units "in@x.test") (units "site@x.test") refl full_form-WerePosted small-CountsMs
      (omega arith) refl refl refl refl refl refl (λ m. refl)
