-- ===== src/Site/Docs/Layout.antt =====
-- web/app/docs/layout.tsx, and the menu of web/components/docs-nav.tsx on narrow screens.
use agentic_warden.Prelude.{Bool, not, List, [], ◌∷◌, ◌++◌, Text, units, text_eq, nat_eq}
use agentic_warden.Site.Docs.Frontmatter.{Doc}
use agentic_warden.Site.Docs.Page.{layout_sections, docs_nav}
use agentic_warden.View.{attr, Html, el, say}

pub data MenuEvent : Type 0 where
  -- the first rendering, or another path; the width of the window is then asked for
  path_changed : Bool → MenuEvent
  summary_clicked : MenuEvent

-- Whether the menu is open.
unfoldable pub menu_step : Bool → MenuEvent → Bool
menu_step is_open (path_changed is_wide) = is_wide
menu_step is_open summary_clicked = not is_open

-- `DocsLayout`; `DocsCopy` draws nothing.
unfoldable pub docs_layout : Text → List Doc → Html ⊥ → Html ⊥
unfolding layout_sections docs_nav
docs_layout pathname docs children = el "div" [] (
    docs_nav pathname (layout_sections docs)
    ++ el "div" [] (
        children
        ++ el "aside" [] (
            el "p" []
              (el "strong" [] (say "Bring your rules.") ++ say " See it against your own policy.")
            ++ el "Link" (attr "href" (units "/demo") ∷ []) (say "Request a demo"))))
