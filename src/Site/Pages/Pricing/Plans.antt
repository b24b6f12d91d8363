-- ===== src/Site/Pages/Pricing/Plans.antt =====
-- From a tier of the pricing page to the plan of the demo form.
use agentic_warden.Prelude.{
  ℕ, Bool, true, false, some, List, [], ◌++◌, map, flat_map, Text, units, text_beq, text_eq, nat_eq,
  contains, get_or, ◌≡◌, inl, inr, refl, ◌∙◌,
}
use agentic_warden.Prelude.{Occurs}
use agentic_warden.Site.Seo.{Question}
use agentic_warden.Site.Demo.Schema.{
  Value, parse_plan, plan_ids, size_options, agent_options, deployment_options,
}
use agentic_warden.Site.Demo.Schema
use agentic_warden.Site.Demo.Submit.{idle}
use agentic_warden.Site.Demo.Form.{error_text, errors_of, described_by, str}
use agentic_warden.Site.Pages.Pricing.Content.{Tier, pricing_tiers}
use agentic_warden.Site.Pages.Pricing.{tier_href, pricing_page, demo_page}
use agentic_warden.View.Links.{hrefs, default_of}

-- The plans that the schema accepts are those of the tiers, in their order.
tier_ids : map (λ t. t.id) pricing_tiers ≡ plan_ids
unfolding pricing_tiers plan_ids
tier_ids = refl

-- The places of a tier.
tier-cases :
    (t : Tier)
    → Occurs t pricing_tiers
    → (contains plan_ids t.id ≡ true)
      × ((questions_text : List Question → Text)
          → contains (hrefs (pricing_page questions_text)) (tier_href t) ≡ true)
unfolding pricing_page plan_ids units text_beq flat_map
tier-cases t (inl e) = rw (e) (refl, λ q. refl)
tier-cases t (inr (inl e)) = rw (e) (refl, λ q. refl)
tier-cases t (inr (inr (inl e))) = rw (e) (refl, λ q. refl)
tier-cases t (inr (inr (inr e))) = absurd e

page_default :
    (plan : Value) (now : ℕ) (webmail pending : Bool)
    → default_of (units "plan") (demo_page plan now idle webmail pending)
      ≡ some (get_or (parse_plan plan) [])
unfolding demo_page units text_beq flat_map error_text errors_of described_by str size_options
    agent_options deployment_options
page_default plan now true true = refl
page_default plan now true false = refl
page_default plan now false true = refl
page_default plan now false false = refl

-- The link of each tier stands on the pricing page, and the demo page at the plan of the link starts
-- with that plan chosen. At any other text as the plan it starts with none.
pub pricing_page-demo_page :
    (t : Tier) (questions_text : List Question → Text) (now : ℕ) (webmail pending : Bool)
    → Occurs t pricing_tiers
    → (contains (hrefs (pricing_page questions_text)) (units "/demo?plan=" ++ t.id) ≡ true)
      × (default_of (units "plan") (demo_page (Schema.text t.id) now idle webmail pending)
          ≡ some t.id)
      × ((other : Text)
          → contains plan_ids other ≡ false
          → default_of (units "plan") (demo_page (Schema.text other) now idle webmail pending)
            ≡ some [])
unfolding tier_href parse_plan
pricing_page-demo_page t questions_text now webmail pending o =
    let (known, linked) = tier-cases t o in
    (
      linked questions_text,
      page_default (Schema.text t.id) now webmail pending ∙ rw (known) refl,
      λ other unknown. page_default (Schema.text other) now webmail pending ∙ rw (unknown) refl,
    )
