-- ===== src/Site/Pages/Product.antt =====
-- web/app/product/page.tsx
pub mod Content
use agentic_warden.Prelude.{
  ℕ, zero, suc, ◌+◌, ◌-◌, ◌*◌, ◌≤◌, ◌<◌, Bool, true, false, not, ◌&&◌, ◌||◌, String, Option, none,
  some, List, [], ◌∷◌, ◌++◌, map, reverse, flat_map, append_assoc, append-nil, Text, units,
  text_beq, text_eq, nat_eq, Equality, ◌==◌, ==_iff, ==_refl, if◌then◌else◌, Bool-cases,
  Option-cases, All, All-append, All-reverse, length, filter, find?, is_empty, first?, last?,
  contains, is_some, get_or, truthy, or_else, split, join, ◌≡◌, ◌≢◌, ◌↔◌, ◌⊎◌, inl, inr, refl, sym,
  ap, ◌∙◌, subst, fun_ext, arith, ltb, leb, Result,
}
use agentic_warden.Site.Pages.Product.Content.{
  Feature, product_title, product_lede, features, console_teaser,
}
use agentic_warden.Site.Pages.Frame.{FrameEvent, text_link}
use agentic_warden.View.{Attr, attr, Html, el, say, show}

unfoldable pub feature_section : Feature → Html FrameEvent
feature_section f =
    el "section" (attr "id" f.id ∷ attr "aria-labelledby" (f.id ++ units "-title") ∷ [])
      (el "h2" (attr "id" (f.id ++ units "-title") ∷ []) (show f.title) ++ el "p" [] (show f.body))

unfoldable pub product_page : Html FrameEvent
unfolding feature_section product_title product_lede features console_teaser
product_page = el "div" [] (
    el "h1" [] (show product_title)
    ++ (el "p" [] (show product_lede)
        ++ el "div" [] (
            flat_map feature_section features
            ++ el "section"
                (attr "id" console_teaser.id ∷ attr "aria-labelledby" (units "console-title") ∷ [])
                (el "div" [] (
                    el "h2" (attr "id" (units "console-title") ∷ []) (show console_teaser.title)
                    ++ el "Badge" (attr "variant" (units "secondary") ∷ [])
                        (show console_teaser.badge))
                  ++ (el "p" [] (show console_teaser.body) ++ text_link console_teaser.cta)))))
