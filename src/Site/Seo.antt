-- ===== src/Site/Seo.antt =====
-- web/lib/seo.ts, web/lib/headers.ts and web/next.config.ts: what search engines and browsers are
-- told. The texts of web/content/site.ts that stand in them are kept whole.
pub mod Production
pub mod Sitemap
use agentic_warden.Prelude.{
  ℕ, zero, suc, ◌+◌, ◌-◌, ◌*◌, ◌≤◌, ◌<◌, Bool, true, false, not, ◌&&◌, ◌||◌, String, Option, none,
  some, List, [], ◌∷◌, ◌++◌, map, reverse, flat_map, append_assoc, append-nil, Text, units,
  text_beq, text_eq, nat_eq, Equality, ◌==◌, ==_iff, ==_refl, if◌then◌else◌, Bool-cases,
  Option-cases, All, All-append, All-reverse, length, filter, find?, is_empty, first?, last?,
  contains, is_some, get_or, truthy, or_else, split, join, ◌≡◌, ◌≢◌, ◌↔◌, ◌⊎◌, inl, inr, refl, sym,
  ap, ◌∙◌, subst, fun_ext, arith, ltb, leb, Result,
}
use agentic_warden.Site.Env.{Env, is_value, is_production_deploy, site_url}
use agentic_warden.Site.Docs.Frontmatter.{Doc}
use agentic_warden.Site.Docs.Nav.{doc_href}

-- web/content/site.ts
unfoldable pub site_name : Text
site_name = units "Agentic Warden"

unfoldable pub site_description : Text
site_description =
    units
      "Agentic Warden is the enterprise control plane for AI coding agents. Author one policy and govern Claude Code, Codex and Antigravity CLI (gateway and models) by group and by repository."

unfoldable pub github_url : Text
github_url = units "https://github.com/alchristleo/agentic-warden"

unfoldable pub docs_url : Text
docs_url = units "/docs"

unfoldable pub license_url : Text
license_url = units "https://github.com/alchristleo/agentic-warden/blob/main/LICENSE"

pub record Route : Type 0 where
  pub path : Text
  pub title : Text
  pub description : Text

unfoldable pub routes : List Route
routes =
    record {
      path = units "/";
      title = units "Agentic Warden — one policy for your coding agents";
      description = site_description;
    }
    ∷ record {
      path = units "/product";
      title = units "Product — Agentic Warden";
      description =
          units
            "Group and repository targeting, signed bundles, SCIM provisioning and scheduled sync for Claude Code, Codex and Antigravity CLI.";
    }
    ∷ record {
      path = units "/pricing";
      title = units "Pricing — Agentic Warden";
      description =
          units
            "Team, Enterprise and Self-hosted plans for governing AI coding agents. Contact us for a quote.";
    }
    ∷ record {
      path = units "/demo";
      title = units "Request a demo — Agentic Warden";
      description =
          units
            "See Agentic Warden applied to your own agent policy. Tell us which coding agents your developers use.";
    }
    ∷ []

unfoldable pub absolute : Env → Text → Text
absolute env path = site_url env ++ path

pub record PageMetadata : Type 0 where
  pub title : Text
  pub description : Text
  pub canonical : Text
  pub index : Bool
  pub follow : Bool
  pub og_site_name : Text
  pub og_title : Text
  pub og_description : Text
  pub og_url : Text
  pub twitter_title : Text
  pub twitter_description : Text

-- `pageMetadata`; a path that is no route is a fault, `none`.
unfoldable pub page_metadata : Env → Text → Option PageMetadata
unfolding routes absolute
page_metadata env path = elim (find? (λ r. r.path == path) routes) [
  | none ↦ none
  | some route ↦ some (record {
    title = route.title;
    description = route.description;
    canonical = absolute env path;
    index = is_production_deploy env;
    follow = is_production_deploy env;
    og_site_name = site_name;
    og_title = route.title;
    og_description = route.description;
    og_url = absolute env path;
    twitter_title = route.title;
    twitter_description = route.description;
  })
]

-- The one rule for the user agent "*", and the sitemap.
pub data Robots : Type 0 where
  disallow_all : Robots
  allow_all : Text → Robots

unfoldable pub robots_for : Env → Robots
unfolding absolute
robots_for env =
    if not (is_production_deploy env)
    then disallow_all
    else allow_all (absolute env (units "/sitemap.xml"))

unfoldable pub sitemap_for : Env → List Text → List Text
unfolding routes absolute
sitemap_for env extra_paths = map (absolute env) (map (λ r. r.path) routes ++ extra_paths)

-- web/app/sitemap.ts
unfoldable pub sitemap : Env → List Doc → List Text
unfolding sitemap_for
sitemap env docs = sitemap_for env (map (λ d. doc_href d.slug) docs)

pub record OrganizationJsonLd : Type 0 where
  pub name : Text
  pub url : Text
  pub same_as : List Text

unfoldable pub organization_json_ld : Env → OrganizationJsonLd
unfolding absolute
organization_json_ld env = record {
  name = site_name;
  url = absolute env (units "/");
  same_as = github_url ∷ [];
}

pub record SoftwareJsonLd : Type 0 where
  pub name : Text
  pub description : Text
  pub url : Text
  pub application_category : Text
  pub operating_system : Text
  pub license : Text

unfoldable pub software_json_ld : Env → SoftwareJsonLd
unfolding absolute
software_json_ld env = record {
  name = site_name;
  description = site_description;
  url = absolute env (units "/");
  application_category = units "DeveloperApplication";
  operating_system = units "Linux, macOS, Windows";
  license = license_url;
}

-- A question with its accepted answer.
pub record Question : Type 0 where
  pub name : Text
  pub answer : Text

-- `faqJsonLd`, for the pairs of `pricing.faq`.
unfoldable pub faq_json_ld : List (Text × Text) → List Question
faq_json_ld faq = map (λ (q, a). record { name = q; answer = a }) faq

unfoldable pub llms_txt : Env → Text
unfolding routes absolute
llms_txt env = join (units "\n") (
    (units "# " ++ site_name)
      ∷ []
      ∷ (units "> " ++ site_description)
      ∷ []
      ∷ units "## Pages"
      ∷ []
      ∷ map
          (λ r.
            units "- ["
            ++ r.title
            ++ units "]("
            ++ absolute env r.path
            ++ units "): "
            ++ r.description)
          routes
    ++ []
      ∷ units "## Docs"
      ∷ []
      ∷ (units "- [Docs]("
          ++ absolute env docs_url
          ++ units "): quickstart, how it works and the security model")
      ∷ []
      ∷ [])

pub record Header : Type 0 where
  pub key : Text
  pub value : Text

-- web/lib/headers.ts
unfoldable pub csp : Text
csp = join (units "; ") (
    units "default-src 'self'"
    ∷ units "script-src 'self' 'unsafe-inline'"
    ∷ units "style-src 'self' 'unsafe-inline'"
    ∷ units "img-src 'self' data: blob:"
    ∷ units "font-src 'self'"
    ∷ units "connect-src 'self'"
    ∷ units "object-src 'none'"
    ∷ units "base-uri 'self'"
    ∷ units "form-action 'self'"
    ∷ units "frame-ancestors 'none'"
    ∷ units "upgrade-insecure-requests"
    ∷ [])

unfoldable pub security_headers : List Header
unfolding csp
security_headers =
    record { key = units "Content-Security-Policy"; value = csp }
    ∷ record {
      key = units "Strict-Transport-Security";
      value = units "max-age=63072000; includeSubDomains; preload";
    }
    ∷ record { key = units "Referrer-Policy"; value = units "strict-origin-when-cross-origin" }
    ∷ record {
      key = units "Permissions-Policy";
      value = units "camera=(), microphone=(), geolocation=()";
    }
    ∷ record { key = units "X-Content-Type-Options"; value = units "nosniff" }
    ∷ []

-- `headers` of web/next.config.ts: the headers of every path.
unfoldable pub config_headers : Env → List (Text × List Header)
config_headers env =
    if not (is_value (env "NODE_ENV") (units "production"))
    then []
    else (units "/:path*", security_headers) ∷ []
