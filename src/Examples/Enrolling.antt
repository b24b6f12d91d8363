-- ===== src/Examples/Enrolling.antt =====
-- A token that is copied after a first one was copied and replaced.
use agentic_warden.Prelude.{some, [], ◌∷◌, units, text_eq, nat_eq, ◌≡◌, refl}
use agentic_warden.Console.Types.{EnrollmentToken}
use agentic_warden.Console.Enrollment.{
  EnrollState, user_typed, submitted, created, copy_clicked, copy_done, fresh_form, enroll_step,
}
use agentic_warden.Console.Enrollment.Shown.{after_all}
use agentic_warden.Console.Enrollment.Copied.{
  CopyRun, opened, other, arrived, clicked, answered, CopyRun-copied,
}

abbrev first_token : EnrollmentToken
first_token = record { token = units "t1"; user = units "ada"; expires_at = units "soon" }

abbrev second_token : EnrollmentToken
second_token = record { token = units "t2"; user = units "bob"; expires_at = units "later" }

abbrev copied_twice : EnrollState
copied_twice = after_all fresh_form (
    submitted
    ∷ created first_token
    ∷ copy_clicked
    ∷ copy_done
    ∷ user_typed (units "bob")
    ∷ submitted
    ∷ created second_token
    ∷ copy_clicked
    ∷ copy_done
    ∷ [])

copied_run : CopyRun copied_twice [] (some (units "t2"))
unfolding enroll_step
copied_run = answered (
    clicked (
      arrived
        (other
          (other (answered (clicked (arrived (other opened submitted tt) first_token)))
            (user_typed (units "bob")) tt)
          submitted tt)
        second_token))

CopyRun-copied_example : some (units "t2") ≡ some second_token.token
unfolding enroll_step
CopyRun-copied_example = CopyRun-copied copied_run refl refl
