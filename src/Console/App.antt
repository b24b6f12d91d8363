-- ===== src/Console/App.antt =====
-- console/src/main.tsx, `App` of console/src/app.tsx and the routes of console/src/router.tsx. The
-- router's own matching is a parameter: `matches route path`. What the router is given is here: which
-- screen stands at which path below the base path.
pub mod Opened
use agentic_warden.Prelude.{
  ℕ, zero, suc, ◌+◌, ◌-◌, ◌*◌, ◌≤◌, ◌<◌, Bool, true, false, not, ◌&&◌, ◌||◌, String, Option, none,
  some, List, [], ◌∷◌, ◌++◌, map, reverse, flat_map, append_assoc, append-nil, Text, units,
  text_beq, text_eq, nat_eq, Equality, ◌==◌, ==_iff, ==_refl, if◌then◌else◌, Bool-cases,
  Option-cases, All, All-append, All-reverse, length, filter, find?, is_empty, first?, last?,
  contains, is_some, get_or, truthy, or_else, split, join, ◌≡◌, ◌≢◌, ◌↔◌, ◌⊎◌, inl, inr, refl, sym,
  ap, ◌∙◌, subst, fun_ext, arith, ltb, leb, Result,
}
use agentic_warden.Console.Types.{Me, Query}
use agentic_warden.Console.Theme.{Browser, apply_stored_theme}
use agentic_warden.Console.Session.{Screen, message, sign_in, console, gate}

pub data Route : Type 0 where
  overview policy machines enrollment groups audit : Route

-- The children of `routeTree`.
unfoldable pub route_tree : List (Text × Route)
route_tree =
    (units "/", overview)
    ∷ (units "/policy", policy)
    ∷ (units "/machines", machines)
    ∷ (units "/enrollment", enrollment)
    ∷ (units "/groups", groups)
    ∷ (units "/audit", audit)
    ∷ []

unfoldable pub basepath : Text
basepath = units "/console"

pub data Shown : Type 0 where
  -- `Message` or `SignIn`, in place of the router
  closed : Screen → Shown
  -- the frame with a screen in it, for the signed-in user
  opened : Me → Route → Shown
  -- the frame, and the router's own text for a path without a route
  unknown_path : Me → Shown

abbrev pub open_at : Me → Option Route → Shown
open_at me none = unknown_path me
open_at me (some r) = opened me r

module _ (matches : Text → Text → Bool) where
  unfoldable pub find_route : Text → Option Route
  unfolding route_tree
  find_route path = elim (find? (λ r. matches r.0 path) route_tree) [
    | none ↦ none
    | some r ↦ some r.1
  ]

  -- `App` at a path below the base path; nothing where `gate` is silent.
  unfoldable pub app : Query Me → Text → Option Shown
  app q path = elim (gate q) [
    | none ↦ none
    | some (console me) ↦ some (open_at me (find_route path))
    | some sign_in ↦ some (closed sign_in)
    | some (message title body) ↦ some (closed (message title body))
  ]

  -- The entry point: the theme is applied before the first rendering.
  unfoldable pub start_console : Bool → Browser → Query Me → Text → Browser × Option Shown
  unfolding apply_stored_theme app
  start_console prefers_dark browser q path = (apply_stored_theme prefers_dark browser, app q path)
