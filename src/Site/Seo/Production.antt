-- ===== src/Site/Seo/Production.antt =====
-- Only a production deployment is open to search engines, and its sitemap is complete.
use agentic_warden.Prelude.{
  true, false, some, ◌++◌, Text, units, text_eq, nat_eq, ◌==◌, Option-cases, find?, ◌≡◌, ◌↔◌, inl,
  inr, arith,
}
use agentic_warden.Site.Env.{Env, site_url}
use agentic_warden.Site.Seo.{
  routes, absolute, PageMetadata, page_metadata, disallow_all, allow_all, robots_for,
}

-- The metadata of a page that exists and the robots file agree: a production deployment lets both
-- pages and links be indexed and names its sitemap, any other lets nothing be indexed.
pub page_metadata-robots_for :
    (env : Env) (path : Text) (m : PageMetadata)
    → page_metadata env path ≡ some m
    → (m.index ≡ m.follow)
      × ((m.index ≡ true) ↔ (robots_for env ≡ allow_all (site_url env ++ units "/sitemap.xml")))
      × ((m.index ≡ false) ↔ (robots_for env ≡ disallow_all))
      × (m.canonical ≡ site_url env ++ path)
      × (m.og_url ≡ m.canonical)
unfolding page_metadata robots_for absolute
page_metadata-robots_for env path m h = elim (Option-cases (find? (λ r. r.path == path) routes)) [
  | inl e ↦ absurd (ground arith)
  | inr (route, e) ↦ (ground arith, ground arith, ground arith, ground arith, ground arith)
]
