-- ===== src/Site/Pages/Pricing/Content.antt =====
-- web/content/pricing.ts
use agentic_warden.Prelude.{Option, none, some, List, [], ◌∷◌, Text, units, text_eq, nat_eq}

pub record Tier : Type 0 where
  pub id : Text
  pub name : Text
  pub badge : Option Text
  pub summary : Text
  pub price : Text
  pub features : List Text
  pub cta : Text

pub record ComparisonRow : Type 0 where
  pub feature : Text
  pub values : List Text

unfoldable pub pricing_title : Text
pricing_title = units "Pricing"

unfoldable pub pricing_lede : Text
pricing_lede =
    units "Every plan starts with a conversation about the agents and rules you run today."

unfoldable pub pricing_tiers : List Tier
pricing_tiers =
    record {
      id = units "team";
      name = units "Team";
      badge = some (units "Coming soon");
      summary =
          units "Hosted for you. For teams that want governance without running a control plane.";
      price = units "Contact us";
      features =
          (units "Hosted console"
            ∷ units "Claude Code, Codex and Antigravity CLI (gateway and models)"
            ∷ units "Group and repository targeting"
            ∷ units "Signed bundles"
            ∷ []);
      cta = units "Request demo";
    }
    ∷ record {
      id = units "enterprise";
      name = units "Enterprise";
      badge = none;
      summary = units "For organizations provisioning users from an identity provider.";
      price = units "Contact us";
      features =
          (units "Everything in Team"
            ∷ units "SCIM provisioning (Okta, Entra ID)"
            ∷ units "Rollout help for your policy"
            ∷ units "Self-hosted today; hosted when the console launches"
            ∷ []);
      cta = units "Request demo";
    }
    ∷ record {
      id = units "self-hosted";
      name = units "Self-hosted";
      badge = none;
      summary = units "Apache-2.0 source. Run the control plane on your own infrastructure.";
      price = units "Contact us";
      features =
          (units "Control plane on your servers"
            ∷ units "PostgreSQL storage"
            ∷ units "Every agent and targeting feature"
            ∷ units "Talk to us for rollout help"
            ∷ []);
      cta = units "Talk to us";
    }
    ∷ []

unfoldable pub comparison_columns : List Text
comparison_columns = units "Team" ∷ units "Enterprise" ∷ units "Self-hosted" ∷ []

unfoldable pub comparison_rows : List ComparisonRow
comparison_rows =
    record {
      feature = units "Claude Code, Codex and Antigravity CLI (gateway and models)";
      values = (units "Yes" ∷ units "Yes" ∷ units "Yes" ∷ []);
    }
    ∷ record {
      feature = units "Group and repository targeting";
      values = (units "Yes" ∷ units "Yes" ∷ units "Yes" ∷ []);
    }
    ∷ record {
      feature = units "Signed bundles";
      values = (units "Yes" ∷ units "Yes" ∷ units "Yes" ∷ []);
    }
    ∷ record {
      feature = units "SCIM provisioning";
      values = (units "—" ∷ units "Yes" ∷ units "Yes" ∷ []);
    }
    ∷ record {
      feature = units "Hosted console";
      values = (units "Coming soon" ∷ units "Coming soon" ∷ units "—" ∷ []);
    }
    ∷ record {
      feature = units "Runs on your infrastructure";
      values = (units "—" ∷ units "Yes (hosted coming soon)" ∷ units "Yes" ∷ []);
    }
    ∷ []

-- The questions with their answers.
unfoldable pub faq : List (Text × Text)
faq =
    (
      units "Does it replace Claude Code's managed settings?",
      units
          "No. It builds on them. The sync agent writes the managed-settings drop-in that names the policy helper, and the helper computes the settings for each session.",
    )
    ∷ (
      units "What happens if the control plane is down?",
      units
          "Nothing changes for developers. The helper reads the last synced bundle on disk, so Claude Code keeps starting with the last policy it received.",
    )
    ∷ (
      units "Can a developer bypass it by running claude directly?",
      units
          "Not for Claude Code outside the copy your organization installs: the policy helper runs on every launch of that copy, wrapper or not. For Codex the machine-wide files always apply; repository-specific rules apply when launched through aw codex.",
    )
    ∷ (
      units "Which identity providers work?",
      units
          "Okta and Microsoft Entra ID. The endpoint speaks SCIM 2.0 and handles the request shapes those two send.",
    )
    ∷ (
      units "Is the hosted console available?",
      units
          "Not yet. Self-host awd today; its /console/ is opt-in via AWD_PUBLIC_URL and AWD_CONSOLE_*. Choose Team or pick hosted on the demo form and we will contact you when early access opens.",
    )
    ∷ (
      units "How much does it cost?",
      units
          "Pricing depends on the plan and the size of your organization. Request a demo and we will send a quote.",
    )
    ∷ []
