-- ===== src/Console/Session.antt =====
-- console/src/app.tsx, the frame in console/src/router.tsx and console/src/screens/sign-in.tsx: who
-- gets to see the console, and what a lost session does. A query key is its list of texts.
pub mod Lost
use agentic_warden.Prelude.{
  ℕ, zero, suc, ◌+◌, ◌-◌, ◌*◌, ◌≤◌, ◌<◌, Bool, true, false, not, ◌&&◌, ◌||◌, String, Option, none,
  some, List, [], ◌∷◌, ◌++◌, map, reverse, flat_map, append_assoc, append-nil, Text, units,
  text_beq, text_eq, nat_eq, Equality, ◌==◌, ==_iff, ==_refl, if◌then◌else◌, Bool-cases,
  Option-cases, All, All-append, All-reverse, length, filter, find?, is_empty, first?, last?,
  contains, is_some, get_or, truthy, or_else, split, join, ◌≡◌, ◌≢◌, ◌↔◌, ◌⊎◌, inl, inr, refl, sym,
  ap, ◌∙◌, subst, fun_ext, arith, ltb, leb, Result,
}
use agentic_warden.Console.Types.{
  Me, Failure, api_error, error, thrown, Query, QueryStatus, pending, succeeded, failed, has_status,
}
use agentic_warden.Console.Theme.{Theme, light, dark}
use agentic_warden.View.{Attr, attr, flag, on, Html, el, say, show}

abbrev pub Key : Type 0
Key = List Text

abbrev pub me_key : Key
me_key = units "me" ∷ []

abbrev pub first_is_me : Key → Bool
first_is_me [] = false
first_is_me (k ∷ ks) = k == units "me"

-- `onError` of the query cache: the keys that are invalidated.
unfoldable pub on_query_error : Failure → Key → List Key
on_query_error err key =
    if first_is_me key
    then []
    else if has_status err 401 || (has_status err 403 || has_status err 503)
    then me_key ∷ []
    else []

-- What `Gate` renders.
pub data Screen : Type 0 where
  message : Text → Text → Screen
  sign_in : Screen
  console : Me → Screen

-- The branches on an error.
unfoldable pub gate_error : Failure → Screen
gate_error (api_error status m) =
    if status == 401
    then sign_in
    else if status == 403
    then message (units "No access") (units "You are not a console admin.")
    else message (units "Console unavailable") m
gate_error (error m) = message (units "Console unavailable") (units "Could not reach awd.")
gate_error thrown = message (units "Console unavailable") (units "Could not reach awd.")

-- `none` where a query has succeeded without data, which the library excludes.
unfoldable pub gate : Query Me → Option Screen
unfolding gate_error
gate q = elim q.status [
  | pending ↦ some (message (units "Loading") (units "Checking your session…"))
  | failed err ↦ some (gate_error err)
  | succeeded ↦ elim q.loaded [ none ↦ none | some me ↦ some (console me) ]
]

unfoldable pub sign_in_page : Html ⊥
sign_in_page = el "main" [] (
    el "h1" [] (say "Agentic Warden console")
    ++ el "p" [] (say "Sign in with your company account.")
    ++ el "a" (attr "href" (units "/console/auth/login") ∷ []) (say "Sign in"))

unfoldable pub message_page : Text → Text → Html ⊥
message_page title body = el "main" [] (el "h1" [] (show title) ++ el "div" [] (show body))

-- The frame of the console.
pub data FrameEvent : Type 0 where
  toggle_clicked sign_out_clicked : FrameEvent

pub data FrameEffect : Type 0 where
  logout_posted : FrameEffect
  signing_out_set : Bool → FrameEffect
  invalidated : Key → FrameEffect

-- `signOut`: what happens in which order, whether the request succeeds or throws.
unfoldable pub sign_out : List FrameEffect
sign_out = signing_out_set true ∷ logout_posted ∷ signing_out_set false ∷ invalidated me_key ∷ []

pub record NavItem : Type 0 where
  pub to : Text
  pub label : Text

unfoldable pub nav_items : List NavItem
nav_items =
    record { to = units "/"; label = units "Overview" }
    ∷ record { to = units "/policy"; label = units "Policy" }
    ∷ record { to = units "/machines"; label = units "Machines" }
    ∷ record { to = units "/enrollment"; label = units "Enrollment" }
    ∷ record { to = units "/groups"; label = units "Groups" }
    ∷ record { to = units "/audit"; label = units "Audit" }
    ∷ []

unfoldable pub theme_toggle : Theme → Html FrameEvent
theme_toggle theme =
    el "button"
      (attr "type" (units "button")
        ∷ on "click" toggle_clicked
        ∷ attr "aria-label" (elim theme [
          | dark ↦ units "Switch to light theme"
          | light ↦ units "Switch to dark theme"
        ])
        ∷ [])
      (elim theme [ dark ↦ say "Dark" | light ↦ say "Light" ])

unfoldable pub root_layout : Me → Theme → Bool → Html FrameEvent → Html FrameEvent
unfolding theme_toggle nav_items
root_layout me theme signing_out outlet = el "div" [] (
    el "header" [] (
      el "span" [] (say "Agentic Warden console")
      ++ el "div" [] (
          el "span" [] (show me.user)
          ++ theme_toggle theme
          ++ el "button"
              (attr "type" (units "button")
                ∷ on "click" sign_out_clicked
                ∷ flag "disabled" signing_out
                ∷ [])
              (say "Sign out")))
    ++ el "nav" (attr "aria-label" (units "Console") ∷ []) (
        flat_map
          (λ item.
            el "Link" (attr "to" item.to ∷ flag "exact" (item.to == units "/") ∷ [])
              (show item.label))
          nav_items)
    ++ el "main" [] outlet)
