-- ===== src/Console/Enrollment/Copied.antt =====
-- The label "Copied" of console/src/screens/enrollment.tsx, and the clipboard.
use agentic_warden.Prelude.{
  true, Option, none, some, List, [], ◌∷◌, ◌++◌, Text, text_eq, nat_eq, All, All-append, ◌≡◌, refl,
  ap,
}
use agentic_warden.Console.Types.{EnrollmentToken}
use agentic_warden.Console.Enrollment.{
  EnrollState, EnrollEvent, user_typed, ttl_typed, submitted, created, refused, copy_clicked,
  copy_done, copy_denied, EnrollEffect, posted, clipboard_written, fresh_form, enroll_step,
}

-- The texts that a step hands to the clipboard.
abbrev pub copies_of : List EnrollEffect → List Text
copies_of [] = []
copies_of (posted user ttl ∷ es) = copies_of es
copies_of (clipboard_written t ∷ es) = t ∷ copies_of es

-- The events that the clipboard has no part in.
abbrev pub IsPlain : EnrollEvent → Type 0
IsPlain (user_typed value) = Unit
IsPlain (ttl_typed value) = Unit
IsPlain submitted = Unit
IsPlain (created token) = ⊥
IsPlain (refused e) = Unit
IsPlain copy_clicked = ⊥
IsPlain copy_done = ⊥
IsPlain copy_denied = ⊥

-- The page, the texts that the clipboard has not answered yet, the oldest first, and what the
-- clipboard holds, if the page has written to it. It answers in order, and a token arrives when it
-- has answered all.
pub data CopyRun : EnrollState → List Text → Option Text → Type 0 where
  opened : CopyRun fresh_form [] none
  other :
      {s : EnrollState} {w : List Text} {c : Option Text}
      → CopyRun s w c
      → (e : EnrollEvent) → IsPlain e
      → CopyRun (enroll_step s e).0 w c
  arrived :
      {s : EnrollState} {c : Option Text}
      → CopyRun s [] c
      → (token : EnrollmentToken) → CopyRun (enroll_step s (created token)).0 [] c
  clicked :
      {s : EnrollState} {w : List Text} {c : Option Text}
      → CopyRun s w c
      → CopyRun (enroll_step s copy_clicked).0 (w ++ copies_of (enroll_step s copy_clicked).1) c
  answered :
      {s : EnrollState} {w : List Text} {c : Option Text} {t : Text}
      → CopyRun s (t ∷ w) c
      → CopyRun (enroll_step s copy_done).0 w (some t)
  denied :
      {s : EnrollState} {w : List Text} {c : Option Text} {t : Text}
      → CopyRun s (t ∷ w) c
      → CopyRun (enroll_step s copy_denied).0 w c

-- With a token on the page, what the clipboard has not answered is that token, and so is what it
-- holds once the button says "Copied".
abbrev IsSame : EnrollState → List Text → Option Text → Type 0
IsSame s w c =
    (t : EnrollmentToken)
    → s.result ≡ some t
    → All (λ x. x ≡ t.token) w × (s.copied ≡ true → c ≡ some t.token)

Run-IsSame : {s : EnrollState} {w : List Text} {c : Option Text} → CopyRun s w c → IsSame s w c
unfolding enroll_step
Run-IsSame opened = λ t h. (tt, λ k. cc)
Run-IsSame (other r (user_typed v) p) = Run-IsSame r
Run-IsSame (other r (ttl_typed v) p) = Run-IsSame r
Run-IsSame (other r submitted p) = λ t h. cc
Run-IsSame (other r (created token) p) = absurd p
Run-IsSame (other r (refused e) p) = Run-IsSame r
Run-IsSame (other r copy_clicked p) = absurd p
Run-IsSame (other r copy_done p) = absurd p
Run-IsSame (other r copy_denied p) = absurd p
Run-IsSame (arrived r token) = λ t h. (tt, λ k. cc)
Run-IsSame (clicked {s = s} {w = w} r) = λ t h.
    let (same, label) = Run-IsSame r t h in
    (
      All-append (λ x. x ≡ t.token) w (copies_of (enroll_step s copy_clicked).1) same
          (rw (h) (refl, tt)),
      label,
    )
Run-IsSame (answered r) = λ t h. (((Run-IsSame r t h).0).1, λ k. ap some ((Run-IsSame r t h).0).0)
Run-IsSame (denied r) = λ t h. (((Run-IsSame r t h).0).1, (Run-IsSame r t h).1)

-- Whatever the operator types, sends and clicks: if the clipboard answers in order and no token
-- arrives before it has answered, then a button that says "Copied" next to a token means that the
-- clipboard holds this token.
pub CopyRun-copied :
    {s : EnrollState} {w : List Text} {c : Option Text} {t : EnrollmentToken}
    → CopyRun s w c
    → s.result ≡ some t
    → s.copied ≡ true
    → c ≡ some t.token
CopyRun-copied {t = t} r h k = (Run-IsSame r t h).1 k
