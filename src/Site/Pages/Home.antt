-- ===== src/Site/Pages/Home.antt =====
-- web/app/page.tsx, web/components/home/hero.tsx and policy-snippet.tsx.
pub mod Content
use agentic_warden.Prelude.{
  ℕ, zero, suc, ◌+◌, ◌-◌, ◌*◌, ◌≤◌, ◌<◌, Bool, true, false, not, ◌&&◌, ◌||◌, String, Option, none,
  some, List, [], ◌∷◌, ◌++◌, map, reverse, flat_map, append_assoc, append-nil, Text, units,
  text_beq, text_eq, nat_eq, Equality, ◌==◌, ==_iff, ==_refl, if◌then◌else◌, Bool-cases,
  Option-cases, All, All-append, All-reverse, length, filter, find?, is_empty, first?, last?,
  contains, is_some, get_or, truthy, or_else, split, join, ◌≡◌, ◌≢◌, ◌↔◌, ◌⊎◌, inl, inr, refl, sym,
  ap, ◌∙◌, subst, fun_ext, arith, ltb, leb, Result,
}
use agentic_warden.Site.Pages.Home.Content.{
  hero_content, TerminalLine, Item, StepItem, AgentItem, problem_title, problem_items, steps_title,
  steps_items, agents_title, agents_items, closing,
}
use agentic_warden.Site.Pages.Frame.{FrameEvent, text_link}
use agentic_warden.View.{Attr, attr, flag, Html, el, leaf, say, show, decimal}

unfoldable pub policy_snippet : Html FrameEvent
unfolding hero_content
policy_snippet = el "figure" (attr "aria-label" (units "Policy") ∷ []) (
    el "figcaption" [] (say "org-policy.yaml")
    ++ el "pre" [] (el "code" [] (show hero_content.policy)))

-- The lines of the terminal from the one with this number, each with its delay in milliseconds.
unfoldable pub terminal_lines : ℕ → List TerminalLine → Html FrameEvent
terminal_lines i [] = []
terminal_lines i (line ∷ lines) =
    el "div" (attr "style" (units "--line-delay:" ++ decimal (300 + i * 500) ++ units "ms") ∷ []) (
      el "div" [] (show line.comment)
      ++ el "div" [] (el "span" (flag "aria-hidden" true ∷ []) (say "$ ") ++ show line.command))
    ++ terminal_lines (suc i) lines

unfoldable pub hero : Html FrameEvent
unfolding hero_content terminal_lines policy_snippet
hero = el "section" [] (
    el "div" [] (
      el "p" [] (show hero_content.eyebrow)
      ++ (el "h1" [] (show hero_content.title)
          ++ (el "p" [] (show hero_content.lede)
              ++ el "div" []
                  (text_link hero_content.primary_cta ++ text_link hero_content.secondary_cta))))
    ++ el "div" [] (
        el "figure" (attr "aria-label" (units "Terminal") ∷ []) (
          el "div" (flag "aria-hidden" true ∷ [])
            (leaf "span" [] ++ (leaf "span" [] ++ leaf "span" []))
          ++ el "div" [] (terminal_lines 0 hero_content.terminal))
        ++ policy_snippet))

unfoldable pub problem_card : Item → Html FrameEvent
problem_card item = el "Card" [] (
    el "CardHeader" [] (el "CardTitle" [] (show item.title))
    ++ el "CardContent" [] (show item.body))

-- `String(n).padStart(2, "0")`
unfoldable pub two_digits : ℕ → Text
two_digits n = if ltb (length (decimal n)) 2 then units "0" ++ decimal n else decimal n

-- The steps, numbered from the given number on.
unfoldable pub step_list : ℕ → List StepItem → Html FrameEvent
unfolding two_digits
step_list i [] = []
step_list i (step ∷ steps) =
    el "li" [] (
      el "span" [] (show (two_digits (i + 1) ++ units " · " ++ step.command))
      ++ (el "h3" [] (show step.title) ++ el "p" [] (show step.body)))
    ++ step_list (suc i) steps

unfoldable pub agent_card : AgentItem → Html FrameEvent
agent_card a = el "div" [] (el "h3" [] (show a.name) ++ el "p" [] (show a.body))

unfoldable pub home_page : Html FrameEvent
unfolding hero problem_card step_list agent_card problem_title problem_items steps_title steps_items
    agents_title agents_items closing
home_page =
    hero
    ++ (el "section" []
          (el "h2" [] (show problem_title) ++ el "div" [] (flat_map problem_card problem_items))
        ++ (el "section" [] (el "h2" [] (show steps_title) ++ el "ol" [] (step_list 0 steps_items))
            ++ (el "section" []
                  (el "h2" [] (show agents_title) ++ el "div" [] (flat_map agent_card agents_items))
                ++ el "section" [] (
                    el "div" [] (
                      el "h2" [] (show closing.title)
                      ++ (el "p" [] (show closing.body) ++ text_link closing.cta))))))
