-- ===== src/Console/Machines/Runs.antt =====
-- The runs of the dialog of console/src/screens/machines.tsx, and what the control plane and the
-- screen see of them.
use agentic_warden.Prelude.{
  Bool, true, false, List, [], ◌∷◌, ◌++◌, Text, units, text_eq, nat_eq, Bool-cases, if◌then◌else◌,
  ◌≡◌, ◌⊎◌, inl, inr, refl, subst,
}
use agentic_warden.Prelude.{Occurs}
use agentic_warden.Console.Types.{Machine, has_status, is_waiting}
use agentic_warden.Console.Machines.{
  RevokeState, RevokeEvent, open_changed, typed, revoke_clicked, revoked, refused, RevokeEffect,
  deleted, resolved, invalidated, machines_key, audit_key, closed_dialog, machine_label, invalidate,
  revoke_step, revoke_button,
}
use agentic_warden.Console.Machines.Revoking.{revoke_button-offers}
use agentic_warden.View.Offers.{offered}

-- A click happens on a button that the dialog offers, and an answer belongs to a request.
abbrev pub CanHappen : Machine → RevokeState → RevokeEvent → Type 0
CanHappen m s revoke_clicked =
    (s.is_open ≡ true) × Occurs revoke_clicked (offered (revoke_button m s))
CanHappen m s revoked = is_waiting s.mutation ≡ true
CanHappen m s (refused e) = is_waiting s.mutation ≡ true
CanHappen m s (open_changed shown) = Unit
CanHappen m s (typed t) = Unit

module _ (encode : Text → Text) (m : Machine) where
  -- The runs; the effects of the last step stand first.
  pub data RevokeRun : RevokeState → List RevokeEffect → Type 0 where
    mounted : RevokeRun closed_dialog []
    next :
        {s t : RevokeState} {es fs : List RevokeEffect}
        → RevokeRun s es
        → (e : RevokeEvent) → CanHappen m s e
        → revoke_step encode m s e ≡ (t, fs)
        → RevokeRun t (fs ++ es)

  -- The protocol of the dialog: its first argument is the text that stands in it, the second tells
  -- whether a request is under way. A request is for this machine, and the text is its label; an
  -- answered request is announced at most once, as a revocation or as one that has been made
  -- already, and with the announcement, and only with it, the two lists are loaded again.
  pub data RevokeProtocol : Text → Bool → List RevokeEffect → Type 0 where
    quiet : RevokeProtocol [] false []
    writing :
        {w : Bool} {es : List RevokeEffect} (t u : Text)
        → RevokeProtocol t w es
        → RevokeProtocol u w es
    request :
        {es : List RevokeEffect} (t : Text)
        → t ≡ machine_label m
        → RevokeProtocol t false es
        → RevokeProtocol t true (deleted (units "/v1/machines/" ++ encode m.id) ∷ es)
    refusal :
        {t : Text} {es : List RevokeEffect} → RevokeProtocol t true es → RevokeProtocol t false es
    resolution :
        {t : Text} {es : List RevokeEffect} (u : Text)
        → (u ≡ units "Revoked " ++ machine_label m)
          ⊎ (u ≡ machine_label m ++ units " was already revoked")
        → RevokeProtocol t true es
        → RevokeProtocol t false
            (resolved u ∷ invalidated machines_key ∷ invalidated audit_key ∷ es)

  abbrev Fits : RevokeState → List RevokeEffect → Type 0
  Fits s es = RevokeProtocol s.confirm_text (is_waiting s.mutation) es

  answered-Fits :
      (s : RevokeState) (es : List RevokeEffect)
      → is_waiting s.mutation ≡ true
      → Fits s es
      → RevokeProtocol s.confirm_text true es
  answered-Fits s es can p = subst (λ b. RevokeProtocol s.confirm_text b es) can p

  step-Fits :
      (s : RevokeState) (e : RevokeEvent) (es : List RevokeEffect)
      → CanHappen m s e
      → Fits s es
      → Fits (revoke_step encode m s e).0 ((revoke_step encode m s e).1 ++ es)
  unfolding revoke_step invalidate
  step-Fits s (open_changed shown) es can p =
      writing s.confirm_text (if shown then s.confirm_text else []) p
  step-Fits s (typed value) es can p = writing s.confirm_text value p
  step-Fits s revoke_clicked es (is_there, offers) p =
      let (label, free) = (revoke_button-offers m s).0 offers in
      request s.confirm_text label (subst (λ b. RevokeProtocol s.confirm_text b es) free p)
  step-Fits s revoked es can p =
      resolution (units "Revoked " ++ machine_label m) (inl refl) (answered-Fits s es can p)
  step-Fits s (refused e) es can p = elim (Bool-cases (has_status e 404)) [
    | inl gone ↦ rw (gone) (
        resolution (machine_label m ++ units " was already revoked") (inr refl)
          (answered-Fits s es can p))
    | inr other ↦ rw (other) (refusal (answered-Fits s es can p))
  ]

  -- Every run of the dialog is one of the protocol: whatever the order of the events, the requests
  -- are for this machine, made one at a time and with its label in the dialog; each is refused
  -- without an effect, or announced once, and then, and only then, the two lists are loaded again.
  pub RevokeRun-RevokeProtocol :
      {s : RevokeState} {es : List RevokeEffect}
      → RevokeRun s es
      → RevokeProtocol s.confirm_text (is_waiting s.mutation) es
  RevokeRun-RevokeProtocol mounted = quiet
  RevokeRun-RevokeProtocol (next {s = s} {es = es} r e can p) =
      subst (λ r'. Fits r'.0 (r'.1 ++ es)) p (step-Fits s e es can (RevokeRun-RevokeProtocol r))

  -- After a revocation the dialog, opened again, offers the next one at once: the label is still
  -- there.
  reopened-offers :
      (s : RevokeState)
      → s.confirm_text ≡ machine_label m
      → Occurs revoke_clicked (
          offered (
            revoke_button m
              (revoke_step encode m (revoke_step encode m s revoked).0 (open_changed true)).0))
  unfolding revoke_step
  reopened-offers s h =
      (revoke_button-offers m
          (revoke_step encode m (revoke_step encode m s revoked).0 (open_changed true)).0).1
        (h, refl)
