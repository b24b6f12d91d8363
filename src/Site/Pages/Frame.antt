-- ===== src/Site/Pages/Frame.antt =====
-- The frame of every page of the site: web/app/layout.tsx, web/components/site-header.tsx,
-- site-footer.tsx, theme-toggle.tsx, theme-provider.tsx and json-ld.tsx, and web/app/not-found.tsx.
use agentic_warden.Prelude.{
  ℕ, true, false, Option, List, [], ◌∷◌, ◌++◌, flat_map, Text, units, text_eq, nat_eq, ◌==◌,
  if◌then◌else◌, get_or,
}
use agentic_warden.Site.Env.{Env}
use agentic_warden.Site.Seo.{
  site_name, docs_url, github_url, license_url, OrganizationJsonLd, organization_json_ld,
  SoftwareJsonLd, software_json_ld, PageMetadata, page_metadata,
}
use agentic_warden.Site.Pages.Home.Content.{LinkText}
use agentic_warden.View.{attr, flag, on, Html, el, leaf, say, show, decimal}

unfoldable pub license_name : Text
license_name = units "Apache-2.0"

-- `site.nav`
unfoldable pub nav_links : List LinkText
nav_links =
    record { href = units "/product"; label = units "Product" }
    ∷ record { href = units "/pricing"; label = units "Pricing" }
    ∷ []

abbrev pub link : {E : Type 0} → Text → Html E → Html E
link href content = el "Link" (attr "href" href ∷ []) content

abbrev pub text_link : {E : Type 0} → LinkText → Html E
text_link l = link l.href (show l.label)

-- `.replace(/</g, "\\u003c")` on each code unit.
unfoldable pub escape_less : Text → Text
escape_less = flat_map (λ c. if c == b'<' then units "\\u003c" else c ∷ [])

-- `json` is what `JSON.stringify` gives for the data.
unfoldable pub json_ld : {E : Type 0} → Text → Html E
unfolding escape_less
json_ld json =
    el "script" (attr "type" (units "application/ld+json") ∷ []) (show (escape_less json))

pub data FrameEvent : Type 0 where
  theme_toggled : FrameEvent

-- The theme that a click on the button sets; `resolvedTheme` may be undefined.
unfoldable pub toggled_theme : Option Text → Text
toggled_theme resolved = if get_or resolved [] == units "dark" then units "light" else units "dark"

unfoldable pub theme_button : Html FrameEvent
theme_button =
    el "Button"
      (attr "variant" (units "ghost")
        ∷ attr "size" (units "icon")
        ∷ attr "aria-label" (units "Toggle theme")
        ∷ on "click" theme_toggled
        ∷ [])
      (leaf "Sun" (flag "aria-hidden" true ∷ []) ++ leaf "Moon" (flag "aria-hidden" true ∷ []))

unfoldable pub site_header : Html FrameEvent
unfolding nav_links theme_button docs_url site_name
site_header = el "header" [] (
    el "div" [] (
      link (units "/") (show site_name)
      ++ (el "nav" (attr "aria-label" (units "Main") ∷ [])
            (flat_map text_link nav_links ++ link docs_url (say "Docs"))
          ++ el "div" [] (
              link docs_url (say "Docs")
              ++ (theme_button ++ link (units "/demo") (say "Request demo"))))))

unfoldable pub site_footer : ℕ → Html FrameEvent
unfolding nav_links docs_url github_url license_url license_name site_name
site_footer year = el "footer" [] (
    el "div" [] (
      el "nav" (attr "aria-label" (units "Footer") ∷ []) (
        flat_map text_link nav_links
        ++ (link docs_url (say "Docs")
            ++ (el "a" (attr "href" github_url ∷ []) (say "GitHub")
                ++ el "a" (attr "href" license_url ∷ []) (show license_name))))
      ++ el "p" [] (show (units "© " ++ decimal year ++ units " " ++ site_name))))

-- `stringify` gives the two objects for search engines as text.
module _ (organization_text : OrganizationJsonLd → Text)
    (software_text : SoftwareJsonLd → Text) where
  unfoldable pub root_page : Env → ℕ → Html FrameEvent → Html FrameEvent
  unfolding json_ld site_header site_footer organization_json_ld software_json_ld
  root_page env year children =
      el "html" (attr "lang" (units "en") ∷ flag "suppressHydrationWarning" true ∷ []) (
        el "body" [] (
          json_ld (organization_text (organization_json_ld env))
          ++ (json_ld (software_text (software_json_ld env))
              ++ el "ThemeProvider"
                  (attr "attribute" (units "class")
                    ∷ attr "defaultTheme" (units "dark")
                    ∷ flag "enableSystem" false
                    ∷ flag "disableTransitionOnChange" true
                    ∷ [])
                  (el "a" (attr "href" (units "#main") ∷ []) (say "Skip to content")
                    ++ (site_header
                        ++ (el "main" (attr "id" (units "main") ∷ []) children
                            ++ site_footer year))))))

-- `metadata` of the root layout, without `metadataBase`.
unfoldable pub root_metadata : Env → Option PageMetadata
unfolding page_metadata
root_metadata env = page_metadata env (units "/")

unfoldable pub not_found_page : Html FrameEvent
not_found_page = el "section" [] (
    el "p" [] (say "404")
    ++ (el "h1" [] (say "Page not found")
        ++ (el "p" [] (say "That page does not exist, or it moved.")
            ++ link (units "/") (say "Back to home"))))
