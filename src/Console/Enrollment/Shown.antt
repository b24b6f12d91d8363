-- ===== src/Console/Enrollment/Shown.antt =====
-- When a token is shown.
use agentic_warden.Prelude.{true, none, List, [], ◌∷◌, text_eq, nat_eq, ◌≡◌, refl}
use agentic_warden.Console.Types.{is_waiting}
use agentic_warden.Console.Enrollment.{
  EnrollState, EnrollEvent, user_typed, ttl_typed, submitted, created, refused, copy_clicked,
  copy_done, copy_denied, fresh_form, enroll_step,
}

-- The form after a list of events.
abbrev pub after_all : EnrollState → List EnrollEvent → EnrollState
after_all s [] = s
after_all s (e ∷ es) = after_all (enroll_step s e).0 es

-- Nothing of an earlier request is shown.
abbrev pub IsClear : EnrollState → Type 0
IsClear s = is_waiting s.mutation ≡ true → s.result ≡ none

enroll_step-IsClear : (s : EnrollState) (e : EnrollEvent) → IsClear s → IsClear (enroll_step s e).0
unfolding enroll_step
enroll_step-IsClear s (user_typed value) h = h
enroll_step-IsClear s (ttl_typed value) h = h
enroll_step-IsClear s submitted h = λ _. refl
enroll_step-IsClear s (created token) h = λ w. cc
enroll_step-IsClear s (refused e) h = λ w. cc
enroll_step-IsClear s copy_clicked h = h
enroll_step-IsClear s copy_done h = h
enroll_step-IsClear s copy_denied h = h

after_all-IsClear : (s : EnrollState) (es : List EnrollEvent) → IsClear s → IsClear (after_all s es)
after_all-IsClear s [] h = h
after_all-IsClear s (e ∷ es) h =
    after_all-IsClear (enroll_step s e).0 es (enroll_step-IsClear s e h)

-- Whatever the order of the events from the fresh form on, while a request for a token is under way
-- no token is shown, and a click on copy writes nothing to the clipboard.
pub after_all-waiting :
    (es : List EnrollEvent)
    → is_waiting (after_all fresh_form es).mutation ≡ true
    → ((after_all fresh_form es).result ≡ none)
      × ((enroll_step (after_all fresh_form es) copy_clicked).1 ≡ [])
unfolding enroll_step
after_all-waiting es w =
    let clear = after_all-IsClear fresh_form es (λ w'. cc) w in
    (clear, rw (clear, enroll_step) refl)
