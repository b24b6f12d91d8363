-- ===== src/Console/Enrollment.antt =====
-- console/src/screens/enrollment.tsx: the form that creates an enrollment token, and the card that
-- shows it.
pub mod Shown
pub mod Copied
use agentic_warden.Prelude.{
  ℕ, zero, suc, ◌+◌, ◌-◌, ◌*◌, ◌≤◌, ◌<◌, Bool, true, false, not, ◌&&◌, ◌||◌, String, Option, none,
  some, List, [], ◌∷◌, ◌++◌, map, reverse, flat_map, append_assoc, append-nil, Text, units,
  text_beq, text_eq, nat_eq, Equality, ◌==◌, ==_iff, ==_refl, if◌then◌else◌, Bool-cases,
  Option-cases, All, All-append, All-reverse, length, filter, find?, is_empty, first?, last?,
  contains, is_some, get_or, truthy, or_else, split, join, ◌≡◌, ◌≢◌, ◌↔◌, ◌⊎◌, inl, inr, refl, sym,
  ap, ◌∙◌, subst, fun_ext, arith, ltb, leb, Result,
}
use agentic_warden.Console.Types.{
  EnrollmentToken, Failure, api_message, MutationStatus, unsent, waiting, answered, rejected_with,
  is_waiting,
}
use agentic_warden.Console.Parts.{alert, labelled}
use agentic_warden.View.{Attr, attr, flag, on, on_value, Html, el, leaf, say, show}

pub record EnrollState : Type 0 where
  pub user : Text
  pub ttl : Text
  pub result : Option EnrollmentToken
  pub copied : Bool
  pub mutation : MutationStatus

pub data EnrollEvent : Type 0 where
  user_typed ttl_typed : Text → EnrollEvent
  submitted : EnrollEvent
  created : EnrollmentToken → EnrollEvent
  refused : Failure → EnrollEvent
  copy_clicked : EnrollEvent
  -- the clipboard accepts the text, or denies it
  copy_done copy_denied : EnrollEvent

pub data EnrollEffect : Type 0 where
  -- the request for a user and a time to live
  posted : Text → Text → EnrollEffect
  clipboard_written : Text → EnrollEffect

abbrev pub fresh_form : EnrollState
fresh_form = record {
  user = [];
  ttl = units "24h";
  result = none;
  copied = false;
  mutation = unsent;
}

unfoldable pub enroll_step : EnrollState → EnrollEvent → EnrollState × List EnrollEffect
enroll_step s (user_typed value) = (record s { user = value }, [])
enroll_step s (ttl_typed value) = (record s { ttl = value }, [])
enroll_step s submitted = (record s { result = none; mutation = waiting }, posted s.user s.ttl ∷ [])
enroll_step s (created token) =
    (record s { result = some token; copied = false; mutation = answered }, [])
enroll_step s (refused e) = (record s { mutation = rejected_with e }, [])
enroll_step s copy_clicked =
    (s, elim s.result [ none ↦ [] | some t ↦ clipboard_written t.token ∷ [] ])
enroll_step s copy_done = (record s { copied = true }, [])
enroll_step s copy_denied = (s, [])

-- `origin` is `location.origin`.
unfoldable pub token_card : Text → EnrollmentToken → Bool → Html EnrollEvent
token_card origin t copied = el "Card" [] (
    el "CardHeader" []
      (el "CardTitle" [] (show (units "Token for " ++ t.user ++ units " — shown once")))
    ++ el "CardContent" [] (
        el "div" [] (
          el "code" [] (show t.token)
          ++ el "Button" (attr "type" (units "button") ∷ on "click" copy_clicked ∷ [])
              (if copied then say "Copied" else say "Copy"))
        ++ el "pre" []
            (show (units "aw-sync enroll --server " ++ origin ++ units " --token " ++ t.token))
        ++ el "p" [] (say "Copy it now: it cannot be retrieved again.")))

unfoldable pub mutation_alert : MutationStatus → Html EnrollEvent
mutation_alert (rejected_with e) = alert (api_message e (units "Could not create the token."))
mutation_alert unsent = []
mutation_alert waiting = []
mutation_alert answered = []

unfoldable pub enrollment_page : Text → EnrollState → Html EnrollEvent
unfolding token_card mutation_alert
enrollment_page origin s = el "div" [] (
    el "h1" [] (say "Enrollment")
    ++ el "form" (on "submit" submitted ∷ []) (
        labelled (units "enroll-user") (say "User") (
          leaf "Input" (
            attr "id" (units "enroll-user")
            ∷ attr "type" (units "email")
            ∷ flag "required" true
            ∷ attr "value" s.user
            ∷ on_value "change" user_typed
            ∷ []))
        ++ labelled (units "enroll-ttl") (say "Valid for") (
            leaf "Input" (
              attr "id" (units "enroll-ttl")
              ∷ attr "value" s.ttl
              ∷ on_value "change" ttl_typed
              ∷ attr "aria-describedby" (units "enroll-ttl-hint")
              ∷ [])
            ++ el "p" (attr "id" (units "enroll-ttl-hint") ∷ []) (say "At most 168h."))
        ++ mutation_alert s.mutation
        ++ el "Button" (attr "type" (units "submit") ∷ flag "disabled" (is_waiting s.mutation) ∷ [])
            (say "Create token"))
    ++ elim s.result [ none ↦ [] | some t ↦ token_card origin t s.copied ])
