-- ===== src/Examples/Revoking.antt =====
-- The dialog that revokes a machine, at concrete events.
use agentic_warden.Prelude.{
  true, none, some, List, [], ◌∷◌, units, text_beq, text_eq, nat_eq, inl, inr, refl,
}
use agentic_warden.Console.Types.{Machine, is_waiting}
use agentic_warden.Console.Machines.{
  RevokeState, RevokeEvent, open_changed, typed, revoke_clicked, revoked, RevokeEffect, deleted,
  resolved, invalidated, machines_key, audit_key, closed_dialog, revoke_step, revoke_button,
}
use agentic_warden.Console.Machines.Runs.{
  RevokeRun, mounted, next, RevokeProtocol, RevokeRun-RevokeProtocol,
}

abbrev laptop : Machine
laptop = record {
  id = units "m1";
  user = units "ada";
  name = some (units "laptop");
  os = none;
  enrolled_at = units "t";
  last_seen_at = units "s";
  last_bundle_version = none;
  last_key_id = none;
}

abbrev revoke : RevokeState → RevokeEvent → RevokeState
revoke s e = (revoke_step (λ t. t) laptop s e).0

abbrev opened_dialog : RevokeState
opened_dialog = revoke closed_dialog (open_changed true)

abbrev named_dialog : RevokeState
named_dialog = revoke opened_dialog (typed (units "laptop"))

abbrev waiting_dialog : RevokeState
waiting_dialog = revoke named_dialog revoke_clicked

abbrev done_dialog : RevokeState
done_dialog = revoke waiting_dialog revoked

revoke_code : Unit {0}
unfolding units text_beq revoke_step revoke_button
revoke_code = tt

abbrev revoke_effects : List RevokeEffect
revoke_effects =
    resolved (units "Revoked laptop")
    ∷ invalidated machines_key
    ∷ invalidated audit_key
    ∷ deleted (units "/v1/machines/m1")
    ∷ []

revoke_run : RevokeRun (λ t. t) laptop done_dialog revoke_effects
unfolding revoke_code
revoke_run =
    next
      (next (next (next mounted (open_changed true) tt refl) (typed (units "laptop")) tt refl)
        revoke_clicked (refl, inr (inr (inl refl))) refl)
      revoked refl refl

RevokeRun-RevokeProtocol_example :
    RevokeProtocol
      (λ t. t)
      laptop
      done_dialog.confirm_text
      (is_waiting done_dialog.mutation)
      revoke_effects
RevokeRun-RevokeProtocol_example = RevokeRun-RevokeProtocol (λ t. t) laptop revoke_run
