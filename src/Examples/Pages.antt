-- ===== src/Examples/Pages.antt =====
-- The pages of the site at a tier.
use agentic_warden.Prelude.{
  true, false, none, some, List, [], ◌∷◌, ◌++◌, Text, units, text_eq, nat_eq, contains, ◌≡◌, inl,
  inr, refl,
}
use agentic_warden.Prelude.{Occurs}
use agentic_warden.Site.Seo.{Question}
use agentic_warden.Site.Demo.Schema.{plan_ids}
use agentic_warden.Site.Demo.Schema
use agentic_warden.Site.Demo.Submit.{idle}
use agentic_warden.Site.Pages.Pricing.Content.{Tier, pricing_tiers}
use agentic_warden.Site.Pages.Pricing.{pricing_page, demo_page}
use agentic_warden.Site.Pages.Pricing.Plans.{pricing_page-demo_page}
use agentic_warden.View.Links.{hrefs, default_of}

abbrev no_text : List Question → Text
no_text qs = []

abbrev enterprise : Tier
enterprise = record {
  id = units "enterprise";
  name = units "Enterprise";
  badge = none;
  summary = units "For organizations provisioning users from an identity provider.";
  price = units "Contact us";
  features =
      units "Everything in Team"
      ∷ units "SCIM provisioning (Okta, Entra ID)"
      ∷ units "Rollout help for your policy"
      ∷ units "Self-hosted today; hosted when the console launches"
      ∷ [];
  cta = units "Request demo";
}

enterprise_listed : Occurs enterprise pricing_tiers
unfolding pricing_tiers
enterprise_listed = inr (inl refl)

pricing_page-demo_page_example :
    (contains (hrefs (pricing_page no_text)) (units "/demo?plan=" ++ enterprise.id) ≡ true)
    × (default_of (units "plan") (demo_page (Schema.text enterprise.id) 0 idle true false)
        ≡ some enterprise.id)
    × ((other : Text)
        → contains plan_ids other ≡ false
        → default_of (units "plan") (demo_page (Schema.text other) 0 idle true false) ≡ some [])
pricing_page-demo_page_example =
    pricing_page-demo_page enterprise no_text 0 true false enterprise_listed
