-- ===== src/Console/Machines.antt =====
-- console/src/screens/machines.tsx: the dialog that revokes a machine, and the table of machines.
pub mod Revoking
pub mod Runs
use agentic_warden.Prelude.{
  ℕ, zero, suc, ◌+◌, ◌-◌, ◌*◌, ◌≤◌, ◌<◌, Bool, true, false, not, ◌&&◌, ◌||◌, String, Option, none,
  some, List, [], ◌∷◌, ◌++◌, map, reverse, flat_map, append_assoc, append-nil, Text, units,
  text_beq, text_eq, nat_eq, Equality, ◌==◌, ==_iff, ==_refl, if◌then◌else◌, Bool-cases,
  Option-cases, All, All-append, All-reverse, length, filter, find?, is_empty, first?, last?,
  contains, is_some, get_or, truthy, or_else, split, join, ◌≡◌, ◌≢◌, ◌↔◌, ◌⊎◌, inl, inr, refl, sym,
  ap, ◌∙◌, subst, fun_ext, arith, ltb, leb, Result,
}
use agentic_warden.Prelude.{ℤ}
use agentic_warden.Console.Types.{
  Me, Machine, Failure, error_message, has_status, Query, QueryStatus, pending, succeeded, failed,
  MutationStatus, unsent, waiting, answered, rejected_with, is_waiting,
}
use agentic_warden.Console.Session.{Key}
use agentic_warden.Console.Format.{Span, never_seen, is_stale, is_old_key, relative}
use agentic_warden.Console.Parts.{
  shown_or_dash, cell, row, table, alert, alert_if, status_line, labelled, input,
}
use agentic_warden.View.{Attr, attr, flag, on, Html, el, say, show}

pub record RevokeState : Type 0 where
  pub is_open : Bool
  pub confirm_text : Text
  pub mutation : MutationStatus

pub data RevokeEvent : Type 0 where
  -- `onOpenChange`
  open_changed : Bool → RevokeEvent
  typed : Text → RevokeEvent
  -- `mutation.mutate()`, `onSuccess`, `onError`
  revoke_clicked revoked : RevokeEvent
  refused : Failure → RevokeEvent

pub data RevokeEffect : Type 0 where
  deleted : Text → RevokeEffect
  resolved : Text → RevokeEffect
  invalidated : Key → RevokeEffect

abbrev pub machines_key : Key
machines_key = units "machines" ∷ []

abbrev pub audit_key : Key
audit_key = units "audit" ∷ []

abbrev pub closed_dialog : RevokeState
closed_dialog = record { is_open = false; confirm_text = []; mutation = unsent }

-- `label`
unfoldable pub machine_label : Machine → Text
machine_label m = or_else (get_or m.name []) m.id

-- `invalidate`
unfoldable pub invalidate : List RevokeEffect
invalidate = invalidated machines_key ∷ invalidated audit_key ∷ []

-- `alertMessage`, where the empty text stands for null: neither is shown.
unfoldable pub alert_message : MutationStatus → Text
alert_message (rejected_with e) = if has_status e 404 then [] else error_message e []
alert_message unsent = []
alert_message waiting = []
alert_message answered = []

-- `encode` is `encodeURIComponent`.
module _ (encode : Text → Text) where
  unfoldable pub revoke_step : Machine → RevokeState → RevokeEvent → RevokeState × List RevokeEffect
  unfolding machine_label invalidate
  revoke_step m s (open_changed next) =
      (record s { is_open = next; confirm_text = if next then s.confirm_text else [] }, [])
  revoke_step m s (typed value) = (record s { confirm_text = value }, [])
  revoke_step m s revoke_clicked =
      (record s { mutation = waiting }, deleted (units "/v1/machines/" ++ encode m.id) ∷ [])
  revoke_step m s revoked = (
    record s { is_open = false; mutation = answered },
    resolved (units "Revoked " ++ machine_label m) ∷ invalidate,
  )
  revoke_step m s (refused e) =
      if has_status e 404
      then (
        record s { is_open = false; mutation = rejected_with e },
        resolved (machine_label m ++ units " was already revoked") ∷ invalidate,
      )
      else (record s { mutation = rejected_with e }, [])

unfoldable pub revoke_button : Machine → RevokeState → Html RevokeEvent
unfolding machine_label alert_message
revoke_button m s =
    let label = machine_label m in
    let input_id = units "revoke-confirm-" ++ m.id in
    el "Dialog" (flag "open" s.is_open ∷ on "close" (open_changed false) ∷ []) (
      el "DialogTrigger" [] (
        el "Button"
          (attr "aria-label" (units "Revoke " ++ label) ∷ on "click" (open_changed true) ∷ [])
          (say "Revoke"))
      ++ el "DialogContent" [] (
          el "DialogHeader" [] (
            el "DialogTitle" [] (show (units "Type " ++ label ++ units " to confirm"))
            ++ el "DialogDescription" [] (
                show (
                  units "This revokes "
                  ++ label
                  ++ units "’s credential. It can re-enroll with a new token.")))
          ++ labelled input_id (show (units "Type " ++ label ++ units " to confirm"))
              (input input_id s.confirm_text typed)
          ++ alert_if (alert_message s.mutation)
          ++ el "DialogFooter" [] (
              el "Button"
                (flag "disabled" (not (s.confirm_text == label) || is_waiting s.mutation)
                  ∷ on "click" revoke_clicked
                  ∷ [])
                (say "Revoke machine"))))

-- The part of a badge.
abbrev pub badge : {E : Type 0} → String → String → Html E
badge variant label = el "Badge" (attr "variant" (units variant) ∷ []) (say label)

-- `dialogs` draws the dialog of a machine.
module _ {E : Type 0} (time_of : Text → Option ℤ) (format : ℤ → Span → Text) (now : ℤ)
    (dialogs : Machine → Html E) where
  unfoldable pub last_seen : Machine → Html E
  unfolding never_seen is_stale relative
  last_seen m =
      el "span" []
        (if never_seen m then say "Never" else show (relative time_of format m.last_seen_at now))
      ++ (if never_seen m
          then badge "secondary" "Never seen"
          else if is_stale time_of m now
          then badge "secondary" "Stale"
          else [])

  unfoldable pub machine_row : Me → Machine → Html E
  unfolding last_seen is_old_key
  machine_row me m = row (
      cell (show m.user)
      ++ cell (show (shown_or_dash m.name))
      ++ cell (show (shown_or_dash m.os))
      ++ cell (el "div" [] (last_seen m))
      ++ cell (show (shown_or_dash m.last_bundle_version))
      ++ cell (
          el "div" [] (
            el "span" [] (show (shown_or_dash m.last_key_id))
            ++ (if is_old_key m me.signing_key_id then badge "destructive" "Old key" else [])))
      ++ cell (dialogs m))

  unfoldable pub machines_page : Me → Query (List Machine) → Option Text → Html E
  unfolding machine_row
  machines_page me query status =
      let machines = get_or query.loaded [] in
      el "div" [] (
        el "h1" [] (say "Machines") ++ status_line status ++ elim query.status [
          | failed e ↦ alert (error_message e (units "Could not load machines."))
          | succeeded ↦
              if is_empty machines
              then el "p" [] (say "No machines enrolled yet.")
              else table ("User" ∷ "Name" ∷ "OS" ∷ "Last seen" ∷ "Bundle" ∷ "Key" ∷ "Actions" ∷ [])
                  (flat_map (machine_row me) machines)
          | pending ↦ []
        ])
