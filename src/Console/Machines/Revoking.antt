-- ===== src/Console/Machines/Revoking.antt =====
-- When a machine is revoked, and what an answer does.
use agentic_warden.Prelude.{
  Bool, true, false, not, ◌||◌, [], ◌∷◌, ◌++◌, Text, units, text_eq, nat_eq, ◌==◌, ==_iff,
  if◌then◌else◌, Bool-cases, ◌≡◌, ◌↔◌, ◌⊎◌, inl, inr, refl, arith,
}
use agentic_warden.Prelude.{Occurs}
use agentic_warden.Console.Types.{Machine, Failure, error_message, has_status, is_waiting}
use agentic_warden.Console.Machines.{
  RevokeState, open_changed, revoke_clicked, revoked, refused, resolved, machine_label, invalidate,
  alert_message, revoke_step, revoke_button,
}
use agentic_warden.View.Offers.{offered}

-- The button under its flag, behind the trigger.
offers-button :
    (a b : Text) (w : Bool)
    → Occurs revoke_clicked (
        open_changed false
          ∷ open_changed true
          ∷ (if not (a == b) || w || false then [] else (revoke_clicked ∷ []))
        ++ [])
      ↔ (a ≡ b) × (w ≡ false)
offers-button a b w = elim (Bool-cases (a == b)) [
  | inl h ↦ by-wait w h ((==_iff a b).0 h)
  | inr h ↦ (rw (h) (λ o. absurd (nothing o)), λ (e, _). absurd (cc ((==_iff a b).1 e, h)))
]
  where
    nothing : (revoke_clicked ≡ open_changed false) ⊎ (revoke_clicked ≡ open_changed true) ⊎ ⊥ → ⊥
    nothing (inl e) = cc
    nothing (inr (inl e)) = cc
    nothing (inr (inr e)) = e

    by-wait :
        (v : Bool)
        → (a == b) ≡ true
        → a ≡ b
        → Occurs revoke_clicked (
            open_changed false
              ∷ open_changed true
              ∷ (if not (a == b) || v || false then [] else (revoke_clicked ∷ []))
            ++ [])
          ↔ (a ≡ b) × (v ≡ false)
    by-wait false h e = (λ _. (e, refl), λ _. rw (h) (inr (inr (inl refl))))
    by-wait true h e = rw (h) (λ o. absurd (nothing o), λ (_, f). absurd cc)

-- The dialog offers the revocation exactly while the text typed is the machine's label and no
-- request is under way.
pub revoke_button-offers :
    (m : Machine) (s : RevokeState)
    → Occurs revoke_clicked (offered (revoke_button m s))
      ↔ (s.confirm_text ≡ machine_label m) × (is_waiting s.mutation ≡ false)
unfolding revoke_button
revoke_button-offers m s = go (alert_message s.mutation) refl
  where
    go :
        (t : Text)
        → alert_message s.mutation ≡ t
        → Occurs revoke_clicked (offered (revoke_button m s))
          ↔ (s.confirm_text ≡ machine_label m) × (is_waiting s.mutation ≡ false)
    go [] e = rw (e) (offers-button s.confirm_text (machine_label m) (is_waiting s.mutation))
    go (c ∷ t) e = rw (e) (offers-button s.confirm_text (machine_label m) (is_waiting s.mutation))

-- A refusal by 404 does what a success does but for the message: the dialog closes, and the two
-- lists are loaded again. Any other refusal leaves the dialog and the text typed as they are, has no
-- effect, and its message is the alert of the dialog.
pub revoke_step-refused :
    (encode : Text → Text) (m : Machine) (s : RevokeState) (e : Failure)
    → ((has_status e 404 ≡ true)
        × ((revoke_step encode m s (refused e)).0.is_open ≡ false)
        × ((revoke_step encode m s (refused e)).1
            ≡ resolved (machine_label m ++ units " was already revoked") ∷ invalidate)
        × ((revoke_step encode m s revoked).0.is_open ≡ false)
        × ((revoke_step encode m s revoked).1
            ≡ resolved (units "Revoked " ++ machine_label m) ∷ invalidate)
        × (alert_message (revoke_step encode m s (refused e)).0.mutation ≡ []))
      ⊎ ((has_status e 404 ≡ false)
          × ((revoke_step encode m s (refused e)).0.is_open ≡ s.is_open)
          × ((revoke_step encode m s (refused e)).0.confirm_text ≡ s.confirm_text)
          × ((revoke_step encode m s (refused e)).1 ≡ [])
          × (alert_message (revoke_step encode m s (refused e)).0.mutation ≡ error_message e []))
unfolding revoke_step alert_message
revoke_step-refused encode m s e = elim (Bool-cases (has_status e 404)) [
  | inl h ↦ inl (h, ground arith, ground arith, ground arith, ground arith, ground arith)
  | inr h ↦ inr (h, ground arith, ground arith, ground arith, ground arith)
]
