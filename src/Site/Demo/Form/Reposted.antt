-- ===== src/Site/Demo/Form/Reposted.antt =====
-- The form of web/components/demo/demo-form.tsx posted as it stands, and what
-- web/lib/demo/submit.ts makes of it.
use agentic_warden.Prelude.{
  ℕ, Bool, true, false, ◌-◌, ◌≤◌, Option, List, [], ◌∷◌, ◌++◌, filter, Text, units, text_beq,
  text_eq, nat_eq, ◌==◌, ==_iff, ==_refl, get_or, contains, ◌≡◌, ◌⊎◌, refl, sym, ap, ◌∙◌,
  append-nil, ltb,
}
use agentic_warden.Prelude.{Occurs}
use agentic_warden.Platform.{Platform}
use agentic_warden.View.{decimal}
use agentic_warden.View.Decimal.{decimal-IsNumber}
use agentic_warden.Site.Demo.Schema.{
  DemoField, Choice, values, size_options, agent_options, deployment_options,
}
use agentic_warden.Site.Demo.Submit.{
  FormData, get_entry, get_all_texts, entry_text, Values, read_values, DemoState, is_spam, too_fast,
  stamp_too_fast, min_fill_ms,
}
use agentic_warden.Site.Demo.Form.Browser.{
  get_entry-picked, get_entry-picked-other, get_all_texts-picked, get_all_texts-picked-other,
}
use agentic_warden.Site.Demo.Form.{str, chosen_agents}
use agentic_warden.Site.Demo.Form.Again.{
  entries, agents, deployments, plans, text_entry, plan_options,
}

-- Nothing is chosen, or one of the options.
abbrev pub FitsIn : Text → List Choice → Type 0
FitsIn t os = (t ≡ []) ⊎ Occurs t (values os)

module _ (clean : Text → Text → Text) (plan : Option Text) (started_at : ℕ)
    (state : DemoState) where
  -- What the controls of the page show.
  abbrev pub shown_values : Values
  shown_values = record {
    name = clean (units "name") (str state DemoField.name []);
    email = clean (units "email") (str state DemoField.email []);
    company = clean (units "company") (str state DemoField.company []);
    size = str state DemoField.size [];
    deployment = str state DemoField.deployment [];
    plan = str state DemoField.plan (get_or plan []);
    message = clean (units "message") (str state DemoField.message []);
    agents = filter (contains (chosen_agents state)) (values agent_options);
  }

  abbrev all_entries : FormData
  all_entries = entries clean plan started_at state []

  abbrev message_entry : FormData
  message_entry = text_entry clean plan started_at state (units "message") DemoField.message ∷ []

  abbrev from_plans : FormData
  from_plans = plans clean plan started_at state message_entry

  abbrev from_deployments : FormData
  from_deployments = deployments clean plan started_at state from_plans

  abbrev from_agents : FormData
  from_agents = agents clean plan started_at state from_deployments

  abbrev is_plan : Text → Bool
  is_plan t = t == str state DemoField.plan (get_or plan [])

  -- What is read for a name that only stands behind the groups.
  past_plans :
      (key : Text)
      → (units "plan" == key) ≡ false
      → get_entry from_plans key ≡ get_entry message_entry key
  past_plans key h = get_entry-picked-other (units "plan") key is_plan plan_options message_entry h

  past_deployments :
      (key : Text)
      → (units "deployment" == key) ≡ false
      → (units "plan" == key) ≡ false
      → get_entry from_deployments key ≡ get_entry message_entry key
  past_deployments key d h =
      get_entry-picked-other (units "deployment") key _ deployment_options from_plans d
      ∙ past_plans key h

  past_agents :
      (key : Text)
      → (units "agents" == key) ≡ false
      → (units "deployment" == key) ≡ false
      → (units "plan" == key) ≡ false
      → get_entry from_agents key ≡ get_entry message_entry key
  past_agents key a d h =
      get_entry-picked-other (units "agents") key _ agent_options from_deployments a
      ∙ past_deployments key d h

  size_read :
      FitsIn (str state DemoField.size []) size_options
      → entry_text (get_entry all_entries (units "size")) ≡ str state DemoField.size []
  unfolding get_entry units text_beq
  size_read h =
      let shown = str state DemoField.size [] in
      get_entry-picked (units "size") shown (λ t. t == shown) size_options from_agents
        (λ t e. (==_iff t shown).0 e) (==_refl shown) h (past_agents (units "size") refl refl refl)

  deployment_read :
      FitsIn (str state DemoField.deployment []) deployment_options
      → entry_text (get_entry all_entries (units "deployment")) ≡ str state DemoField.deployment []
  unfolding get_entry units text_beq
  deployment_read h =
      let shown = str state DemoField.deployment [] in
      ap entry_text (
        get_entry-picked-other (units "size") (units "deployment") _ size_options from_agents refl
        ∙ get_entry-picked-other (units "agents") (units "deployment") _ agent_options
            from_deployments refl)
      ∙ get_entry-picked (units "deployment") shown (λ t. shown == t) deployment_options from_plans
          (λ t e. sym ((==_iff shown t).0 e)) (==_refl shown) h
          (past_plans (units "deployment") refl)

  plan_read :
      FitsIn (str state DemoField.plan (get_or plan [])) plan_options
      → entry_text (get_entry all_entries (units "plan"))
        ≡ str state DemoField.plan (get_or plan [])
  unfolding get_entry units text_beq
  plan_read h =
      let shown = str state DemoField.plan (get_or plan []) in
      ap entry_text (
        get_entry-picked-other (units "size") (units "plan") _ size_options from_agents refl
        ∙ get_entry-picked-other (units "agents") (units "plan") _ agent_options from_deployments
            refl
        ∙ get_entry-picked-other (units "deployment") (units "plan") _ deployment_options from_plans
            refl)
      ∙ get_entry-picked (units "plan") shown (λ t. t == shown) plan_options message_entry
          (λ t e. (==_iff t shown).0 e) (==_refl shown) h refl

  message_read :
      entry_text (get_entry all_entries (units "message"))
      ≡ clean (units "message") (str state DemoField.message [])
  unfolding get_entry units text_beq
  message_read = ap entry_text (
      get_entry-picked-other (units "size") (units "message") _ size_options from_agents refl
      ∙ past_agents (units "message") refl refl refl)

  agents_read :
      get_all_texts all_entries (units "agents")
      ≡ filter (contains (chosen_agents state)) (values agent_options)
  unfolding get_all_texts units text_beq
  agents_read =
      get_all_texts-picked-other (units "size") (units "agents") _ size_options from_agents refl
      ∙ get_all_texts-picked (units "agents") (contains (chosen_agents state)) agent_options
          from_deployments
      ∙ ap (λ t. filter (contains (chosen_agents state)) (values agent_options) ++ t)
          (get_all_texts-picked-other (units "deployment") (units "agents") _ deployment_options
              from_plans refl
            ∙ get_all_texts-picked-other (units "plan") (units "agents") is_plan plan_options
                message_entry refl)
      ∙ append-nil (filter (contains (chosen_agents state)) (values agent_options))

  -- The choices that the page shows are options of its lists.
  abbrev pub AreOptions : Type 0
  AreOptions =
      FitsIn (str state DemoField.size []) size_options
      × FitsIn (str state DemoField.deployment []) deployment_options
      × FitsIn (str state DemoField.plan (get_or plan [])) plan_options

  pub read_values-entries : AreOptions → read_values all_entries ≡ shown_values
  unfolding read_values get_entry units text_beq
  read_values-entries (s, d, q) = λ i. record {
    name = clean (units "name") (str state DemoField.name []);
    email = clean (units "email") (str state DemoField.email []);
    company = clean (units "company") (str state DemoField.company []);
    size = size_read s i;
    deployment = deployment_read d i;
    plan = plan_read q i;
    message = message_read i;
    agents = agents_read i;
  }

module _ (p : Platform) where
  -- What the numbers of the engine do to whole numbers that they hold exactly.
  abbrev pub CountsMs : Type 0
  CountsMs =
      ((n : ℕ) → p.number (decimal n) ≡ p.of_ℕ n)
      × ((n : ℕ) → p.is_finite (p.of_ℕ n) ≡ true)
      × ((m n : ℕ) → m ≤ n → p.sub (p.of_ℕ n) (p.of_ℕ m) ≡ p.of_ℕ (n - m))
      × ((m n : ℕ) → p.lt (p.of_ℕ m) (p.of_ℕ n) ≡ ltb m n)

  pub is_spam-entries :
      (clean : Text → Text → Text) (plan : Option Text) (started_at now : ℕ) (state : DemoState)
      → CountsMs
      → started_at ≤ now
      → is_spam p (entries clean plan started_at state []) (p.of_ℕ now)
        ≡ ltb (now - started_at) min_fill_ms
  unfolding is_spam too_fast stamp_too_fast get_entry units text_beq
  is_spam-entries clean plan at now state (number, finite, sub, lt) h =
      rw (number at, (decimal-IsNumber at).0, finite at, sub at now h, lt (now - at) min_fill_ms)
        refl
