-- ===== src/Site/Pages/Pricing.antt =====
-- web/app/pricing/page.tsx and web/app/demo/page.tsx: a tier's link leads to the demo form.
pub mod Content
pub mod Plans
use agentic_warden.Prelude.{
  ℕ, zero, suc, ◌+◌, ◌-◌, ◌*◌, ◌≤◌, ◌<◌, Bool, true, false, not, ◌&&◌, ◌||◌, String, Option, none,
  some, List, [], ◌∷◌, ◌++◌, map, reverse, flat_map, append_assoc, append-nil, Text, units,
  text_beq, text_eq, nat_eq, Equality, ◌==◌, ==_iff, ==_refl, if◌then◌else◌, Bool-cases,
  Option-cases, All, All-append, All-reverse, length, filter, find?, is_empty, first?, last?,
  contains, is_some, get_or, truthy, or_else, split, join, ◌≡◌, ◌≢◌, ◌↔◌, ◌⊎◌, inl, inr, refl, sym,
  ap, ◌∙◌, subst, fun_ext, arith, ltb, leb, Result,
}
use agentic_warden.Site.Seo.{Question, faq_json_ld}
use agentic_warden.Site.Demo.Schema.{Value, parse_plan}
use agentic_warden.Site.Demo.Submit.{DemoState}
use agentic_warden.Site.Demo.Form.{FormEvent}
use agentic_warden.Site.Demo.Form.Page.{demo_form}
use agentic_warden.Site.Pages.Pricing.Content.{
  Tier, ComparisonRow, pricing_title, pricing_lede, pricing_tiers, comparison_columns,
  comparison_rows, faq,
}
use agentic_warden.Site.Pages.Frame.{FrameEvent, link, json_ld}
use agentic_warden.View.{Attr, attr, flag, Html, el, leaf, say, show}

unfoldable pub tier_href : Tier → Text
tier_href t = units "/demo?plan=" ++ t.id

unfoldable pub tier_badge : Tier → Html FrameEvent
tier_badge t =
    if truthy (get_or t.badge [])
    then el "Badge" (attr "variant" (units "secondary") ∷ []) (show (get_or t.badge []))
    else []

unfoldable pub tier_feature : Text → Html FrameEvent
tier_feature feature = el "li" [] (leaf "Check" (flag "aria-hidden" true ∷ []) ++ show feature)

unfoldable pub tier_article : Tier → Html FrameEvent
unfolding tier_href tier_badge tier_feature
tier_article t = el "article" (attr "aria-labelledby" (units "tier-" ++ t.id) ∷ []) (
    el "div" [] (el "h2" (attr "id" (units "tier-" ++ t.id) ∷ []) (show t.name) ++ tier_badge t)
    ++ (el "p" [] (show t.summary)
        ++ (el "p" [] (show t.price)
            ++ (el "ul" [] (flat_map tier_feature t.features) ++ link (tier_href t) (show t.cta)))))

abbrev head_cell : String → Text → Html FrameEvent
head_cell scope t = el "TableHead" (attr "scope" (units scope) ∷ []) (show t)

unfoldable pub comparison_row : ComparisonRow → Html FrameEvent
comparison_row r =
    el "TableRow" []
      (head_cell "row" r.feature ++ flat_map (λ v. el "TableCell" [] (show v)) r.values)

unfoldable pub comparison_table : Html FrameEvent
unfolding comparison_row comparison_columns comparison_rows
comparison_table = el "Table" [] (
    el "TableHeader" [] (
      el "TableRow" []
        (head_cell "col" (units "Feature") ++ flat_map (head_cell "col") comparison_columns))
    ++ el "TableBody" [] (flat_map comparison_row comparison_rows))

unfoldable pub faq_item : Text × Text → Html FrameEvent
faq_item (q, a) = el "details" [] (el "summary" [] (show q) ++ el "p" [] (show a))

-- `questions_text` is the text of the object for search engines.
unfoldable pub pricing_page : (List Question → Text) → Html FrameEvent
unfolding json_ld tier_article comparison_table faq_item pricing_title pricing_lede pricing_tiers
    faq
pricing_page questions_text = el "div" [] (
    json_ld (questions_text (faq_json_ld faq))
    ++ (el "h1" [] (show pricing_title)
        ++ (el "p" [] (show pricing_lede)
            ++ (el "div" [] (flat_map tier_article pricing_tiers)
                ++ (el "section" (attr "aria-labelledby" (units "compare-title") ∷ []) (
                      el "h2" (attr "id" (units "compare-title") ∷ []) (say "Compare plans")
                      ++ el "div" [] comparison_table)
                    ++ el "section" (attr "aria-labelledby" (units "faq-title") ∷ []) (
                        el "h2" (attr "id" (units "faq-title") ∷ [])
                          (say "Frequently asked questions")
                        ++ el "div" [] (flat_map faq_item faq)))))))

-- `DemoPage`, for the value of the search parameter and the time of the rendering; the form goes by
-- its own state.
unfoldable pub demo_page : Value → ℕ → DemoState → Bool → Bool → Html FormEvent
unfolding demo_form
demo_page plan now state webmail pending = el "div" [] (
    el "h1" [] (say "Request a demo")
    ++ (el "p" [] (say "Tell us which agents your developers use. We will reply by email.")
        ++ demo_form (parse_plan plan) now state webmail pending))
