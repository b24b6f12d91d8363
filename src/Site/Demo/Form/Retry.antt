-- ===== src/Site/Demo/Form/Retry.antt =====
-- A visitor posts the form of web/components/demo/demo-form.tsx as it is shown, the second time too.
use agentic_warden.Prelude.{
  ℕ, ◌+◌, ◌-◌, ◌≤◌, ◌<◌, ◌↔◌, inl, inr, Bool-cases, Bool, true, false, Option, none, some, [], ◌∷◌,
  filter, Text, units, text_eq, nat_eq, contains, truthy, ◌≡◌, ◌≢◌, refl, sym, ap, ◌∙◌, arith,
}
use agentic_warden.Platform.{Platform}
use agentic_warden.Site.Demo.Schema.{
  values, size_options, agent_options, deployment_options, DemoRequest, Parsed, success, failure,
  SafeParse, demo_schema,
}
use agentic_warden.Site.Demo.Sender.{Message, Sender, delivered}
use agentic_warden.Site.Demo.Submit.{
  FormData, Values, read_values, parse_input, DemoState, ok, failed, handed_over, SubmitDeps,
  is_spam, min_fill_ms, message_of, deliver, send_request, submit_demo,
}
use agentic_warden.Site.Demo.Submit.Errors.{submit_demo-failed}
use agentic_warden.Site.Demo.Form.{values_of, str, chosen_agents}
use agentic_warden.Site.Demo.Form.Page.{demo_form, tiers}
use agentic_warden.Site.Demo.Form.Browser.{posted}
use agentic_warden.Site.Demo.Form.Again.{demo_form-posted, plan_options}
use agentic_warden.Site.Demo.Form.Reposted.{
  FitsIn, shown_values, AreOptions, read_values-entries, CountsMs, is_spam-entries,
}

-- Values as a browser posts them: texts that its controls leave alone, choices that the lists have,
-- and agents in the order of their boxes.
pub record WerePosted (clean : Text → Text → Text) (v : Values) : Type 0 where
  pub name_kept : clean (units "name") v.name ≡ v.name
  pub email_kept : clean (units "email") v.email ≡ v.email
  pub company_kept : clean (units "company") v.company ≡ v.company
  pub message_kept : clean (units "message") v.message ≡ v.message
  pub size_fits : FitsIn v.size size_options
  pub deployment_fits : FitsIn v.deployment deployment_options
  pub plan_fits : FitsIn v.plan plan_options
  pub agents_ticked : v.agents ≡ filter (contains v.agents) (values agent_options)

module _ (clean : Text → Text → Text) (plan : Option Text) (started_at : ℕ)
    (webmail pending : Bool) where
  abbrev pub posted_form : DemoState → FormData
  posted_form state = posted clean none (demo_form plan started_at state webmail pending)

  -- The page of an idle form or of a refusal, posted as it stands, is read as what its controls show.
  posted_form-shown :
      (state : DemoState)
      → state ≢ ok
      → AreOptions clean plan started_at state
      → read_values (posted_form state) ≡ shown_values clean plan started_at state
  posted_form-shown state h o =
      ap read_values (demo_form-posted clean plan started_at state webmail pending h)
      ∙ read_values-entries clean plan started_at state o

  shown_values-kept :
      (state : DemoState) (v : Values)
      → values_of state ≡ some v
      → WerePosted clean v
      → AreOptions clean plan started_at state × (shown_values clean plan started_at state ≡ v)
  unfolding str chosen_agents tiers
  shown_values-kept state v h k =
      rw (h, str, chosen_agents)
        (
          (k.size_fits, k.deployment_fits, k.plan_fits),
          λ i. record {
            name = k.name_kept i;
            email = k.email_kept i;
            company = k.company_kept i;
            size = v.size;
            deployment = v.deployment;
            plan = v.plan;
            message = k.message_kept i;
            agents = sym k.agents_ticked i;
          },
        )

  -- The form that is shown again posts, as it stands, the values that it was shown with.
  pub read_values-posted_form :
      (state : DemoState) (v : Values)
      → values_of state ≡ some v
      → WerePosted clean v
      → read_values (posted_form state) ≡ v
  unfolding values_of
  read_values-posted_form state v h k =
      let (options, same) = shown_values-kept state v h k in
      posted_form-shown state (λ e. absurd (cc (sym h ∙ ap values_of e))) options ∙ same

  -- A page that is opened at a time and posted later is taken for spam exactly if less than three
  -- seconds have passed, whatever it shows: the trap for robots is empty.
  pub is_spam-posted_form :
      (p : Platform) (now : ℕ) (state : DemoState)
      → CountsMs p
      → state ≢ ok
      → started_at ≤ now
      → (is_spam p (posted_form state) (p.of_ℕ now) ≡ true) ↔ (now - started_at < min_fill_ms)
  is_spam-posted_form p now state counts shown h =
      let same =
        ap (λ f. is_spam p f (p.of_ℕ now))
          (demo_form-posted clean plan started_at state webmail pending shown)
        ∙ is_spam-entries p clean plan started_at now state counts h in
      rw (same) (ground arith, ground arith)

module _ (p : Platform) (safe_parse : SafeParse) where
  -- A failure page stands behind a form that parses.
  failed-parsed :
      (form : FormData) (deps : SubmitDeps p) (inbox : Option Text) (v : Values)
      → (submit_demo p safe_parse form deps).state ≡ failed inbox v
      → (req : DemoRequest) × (safe_parse demo_schema (parse_input (read_values form))
          ≡ success req)
  unfolding submit_demo
  failed-parsed form deps inbox v h =
      go (is_spam p form deps.now) refl (safe_parse demo_schema (parse_input (read_values form)))
        refl
    where
      go :
          (b : Bool)
          → is_spam p form deps.now ≡ b
          → (r : Parsed) → safe_parse demo_schema (parse_input (read_values form)) ≡ r
          → (req : DemoRequest) × (safe_parse demo_schema (parse_input (read_values form))
              ≡ success req)
      go true spam r e = absurd (ground arith)
      go false real (failure is) e = absurd (ground arith)
      go false real (success req) e = (req, e)

  takes_message :
      (form : FormData) (deps : SubmitDeps p) (send : Sender) (inbox sender : Text)
      → (req : DemoRequest) → is_spam p form deps.now ≡ false
      → safe_parse demo_schema (parse_input (read_values form)) ≡ success req
      → deps.send ≡ some send
      → deps.inbox ≡ some inbox
      → deps.sender ≡ some sender
      → truthy inbox ≡ true
      → truthy sender ≡ true
      → send (message_of inbox sender req) ≡ delivered
      → submit_demo p safe_parse form deps
        ≡ record { state = ok; effects = handed_over (message_of inbox sender req) ∷ [] }
  unfolding submit_demo
  takes_message form deps send inbox sender req real parsed a b c d e takes =
      rw (real, parsed, a, b, c, send_request, d, e, deliver, takes) refl

  -- After a failure page, the visitor posts the page as it stands, with the values that were typed:
  -- once the sender is configured and takes the message, three seconds or more after the page was
  -- opened, the answer is a thank you, and the one effect is the message made of the request that
  -- was read the first time.
  pub submit_demo-posted_form :
      (form : FormData) (deps deps' : SubmitDeps p) (shown : Option Text) (v : Values)
      → (clean : Text → Text → Text) (plan : Option Text) (started_at now : ℕ)
        (webmail pending : Bool)
      → (send : Sender) (inbox sender : Text)
      → (submit_demo p safe_parse form deps).state ≡ failed shown v
      → WerePosted clean v
      → CountsMs p
      → started_at + min_fill_ms ≤ now
      → deps'.now ≡ p.of_ℕ now
      → deps'.send ≡ some send
      → deps'.inbox ≡ some inbox
      → deps'.sender ≡ some sender
      → truthy inbox ≡ true
      → truthy sender ≡ true
      → ((m : Message) → send m ≡ delivered)
      → (req : DemoRequest) × (safe_parse demo_schema (parse_input (read_values form))
          ≡ success req)
        × (submit_demo p safe_parse
              (posted_form clean plan started_at webmail pending (failed shown v))
              deps'
            ≡ record { state = ok; effects = handed_over (message_of inbox sender req) ∷ [] })
  unfolding values_of
  submit_demo-posted_form form deps deps' shown v clean plan at now webmail pending send inbox
        sender h kept counts late clock a b c d e takes =
      let (req, parsed) = failed-parsed form deps shown v h in
      let again = posted_form clean plan at webmail pending (failed shown v) in
      let same : read_values again ≡ read_values form =
        read_values-posted_form clean plan at webmail pending (failed shown v) v refl kept
        ∙ (submit_demo-failed p safe_parse form deps shown v h).1 in
      let fast =
        is_spam-posted_form clean plan at webmail pending p now (failed shown v) counts (cc)
          (omega arith) in
      let real : is_spam p again deps'.now ≡ false =
        elim (Bool-cases (is_spam p again (p.of_ℕ now))) [
          | inl spam ↦ absurd (omega (arith, fast.0 spam))
          | inr no_spam ↦ ap (is_spam p again) clock ∙ no_spam
        ] in
      (
        req,
        parsed,
        takes_message again deps' send inbox sender req real
            (ap (λ w. safe_parse demo_schema (parse_input w)) same ∙ parsed) a b c d e
            (takes (message_of inbox sender req)),
      )
