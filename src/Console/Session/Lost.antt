-- ===== src/Console/Session/Lost.antt =====
-- A lost session reaches the gate once, and the gate's own query asks for nothing more.
use agentic_warden.Prelude.{
  true, false, Option, none, some, List, [], ◌∷◌, ◌++◌, All, Bool-cases, inl, inr, ap, ◌∙◌, Text,
  units, text_eq, nat_eq, ==_refl, ◌≡◌, ◌||◌, ◌≢◌, ◌↔◌, ◌⊎◌, refl, arith,
}
use agentic_warden.Prelude.{Occurs, Occurs-append}
use agentic_warden.Console.Types.{
  Me, Failure, api_error, error, thrown, Query, QueryStatus, pending, succeeded, failed, has_status,
}
use agentic_warden.Console.Session.{
  Key, me_key, first_is_me, on_query_error, sign_in, console, gate,
}

-- A failure for which the session is asked again.
abbrev pub IsSessionFailure : Failure → Type 0
IsSessionFailure err =
    (has_status err 401 ≡ true) ⊎ ((has_status err 403 ≡ true) ⊎ (has_status err 503 ≡ true))

first_is_me_key : first_is_me me_key ≡ true
first_is_me_key = ==_refl (units "me")

-- A query other than the session's own asks for the session again exactly on a 401, a 403 or a 503,
-- and on nothing else. Should the session's query then fail in the same way, the console is not
-- shown, and no further request for the session follows.
pub on_query_error-gate :
    (err : Failure) (key : Key) (me : Option Me)
    → first_is_me key ≡ false
    → ((on_query_error err key ≡ me_key ∷ []) ↔ IsSessionFailure err)
      × ((on_query_error err key ≡ []) ↔ ¬ IsSessionFailure err)
      × ((m : Me) → gate (record { status = failed err; loaded = me }) ≢ some (console m))
      × (on_query_error err me_key ≡ [])
unfolding on_query_error gate
on_query_error-gate err key me other =
    (asked err, quiet err, shut err, ground (arith, first_is_me_key))
  where
    asked : (e : Failure) → (on_query_error e key ≡ me_key ∷ []) ↔ IsSessionFailure e
    asked (api_error s m) = ground arith
    asked (error m) = ground arith
    asked thrown = ground arith

    quiet : (e : Failure) → (on_query_error e key ≡ []) ↔ ¬ IsSessionFailure e
    quiet (api_error s m) = ground arith
    quiet (error m) = ground arith
    quiet thrown = ground arith

    shut :
        (e : Failure) (m : Me) → gate (record { status = failed e; loaded = me }) ≢ some (console m)
    shut (api_error s t) m = ground arith
    shut (error t) m = ground arith
    shut thrown m = ground arith

-- The queries that have failed, each under its key.
abbrev pub Failures : Type 0
Failures = List (Key × Failure)

-- The keys that the handler asks for again, failure by failure.
abbrev pub asked_again : Failures → List Key
asked_again [] = []
asked_again ((key, err) ∷ fs) = on_query_error err key ++ asked_again fs

-- The query library sends the queries again whose keys begin with one that is asked for; these are
-- some of them, and they fail as they like.
abbrev pub FailAgain : Failures → Failures → Type 0
FailAgain fs gs =
    All (λ g. (key : Key) × (rest : Key) × Occurs key (asked_again fs) × (g.0 ≡ key ++ rest)) gs

-- A failure of a query that is not the session's own, with a status that asks for the session.
abbrev pub LosesSession : Key × Failure → Type 0
LosesSession f = (first_is_me f.0 ≡ false) × IsSessionFailure f.1

on_query_error-me :
    (err : Failure) (key k : Key)
    → Occurs k (on_query_error err key)
    → (k ≡ me_key) × LosesSession (key, err)
unfolding on_query_error
on_query_error-me err key k o = elim (Bool-cases (first_is_me key)) [
  | inl own ↦ absurd (rw (own) at o)
  | inr other ↦
      elim (Bool-cases (has_status err 401 || (has_status err 403 || has_status err 503))) [
        | inr kept ↦ absurd (rw (other, kept) at o)
        | inl lost ↦ elim (rw (other, lost) at o) [
          | inl e ↦ (e, (other, ground arith))
          | inr r ↦ absurd r
        ]
      ]
]

LosesSession-on_query_error :
    (err : Failure) (key : Key) → LosesSession (key, err) → on_query_error err key ≡ me_key ∷ []
LosesSession-on_query_error err key (other, lost) =
    (on_query_error-gate err key none other).0.1 lost

asked_again-me :
    (fs : Failures) (k : Key)
    → Occurs k (asked_again fs)
    → (k ≡ me_key) × ((f : Key × Failure) × Occurs f fs × LosesSession f)
asked_again-me [] k o = absurd o
asked_again-me ((key, err) ∷ fs) k o =
    elim ((Occurs-append k (on_query_error err key) (asked_again fs)).0 o) [
      | inl here ↦
          let (e, lost) = on_query_error-me err key k here in (e, ((key, err), inl refl, lost))
      | inr there ↦
          let (e, (f, stands, lost)) = asked_again-me fs k there in (e, (f, inr stands, lost))
    ]

rest-nil : (xs ys : List Key) → xs ++ ys ≡ [] → ys ≡ []
rest-nil [] ys h = h
rest-nil (x ∷ xs) ys h = cc

first_key : (ks : List Key) → ks ≢ [] → (k : Key) × Occurs k ks
first_key [] h = absurd (h refl)
first_key (k ∷ ks) h = (k, inl refl)

LosesSession-asked_again :
    (fs : Failures) (f : Key × Failure) → Occurs f fs → LosesSession f → asked_again fs ≢ []
LosesSession-asked_again [] f o lost n = o
LosesSession-asked_again ((key, err) ∷ fs) f (inl e) lost n =
    let asked = LosesSession-on_query_error f.1 f.0 lost in
    cc (ap (λ (g : Key × Failure). on_query_error g.1 g.0 ++ asked_again fs) e, asked, n)
LosesSession-asked_again ((key, err) ∷ fs) f (inr o) lost n =
    LosesSession-asked_again fs f o lost (rest-nil (on_query_error err key) (asked_again fs) n)

own_only : (fs : Failures) → All (λ f. first_is_me f.0 ≡ true) fs → asked_again fs ≡ []
unfolding on_query_error
own_only [] h = refl
own_only ((key, err) ∷ fs) (own, h) = rw (own) (own_only fs h)

FailAgain-own : (fs gs : Failures) → FailAgain fs gs → All (λ g. first_is_me g.0 ≡ true) gs
FailAgain-own fs [] h = tt
FailAgain-own fs (g ∷ gs) ((key, rest, asked, begins), h) = (
  ap first_is_me (begins ∙ ap (λ k. k ++ rest) (asked_again-me fs key asked).0)
      ∙ ==_refl (units "me"),
  FailAgain-own fs gs h,
)

-- Whatever queries fail at once, and in whatever way, nothing but the session's own query is asked
-- for again, and that exactly if another query has failed with a 401, a 403 or a 503. Of the queries
-- that are sent again on that account only the session's own can fail, and after it nothing is asked
-- for.
pub asked_again-ends :
    (fs gs : Failures)
    → FailAgain fs gs
    → ((key : Key) → Occurs key (asked_again fs) → key ≡ me_key)
      × ((asked_again fs ≢ []) ↔ ((f : Key × Failure) × Occurs f fs × LosesSession f))
      × All (λ g. first_is_me g.0 ≡ true) gs
      × (asked_again gs ≡ [])
asked_again-ends fs gs h =
    let own = FailAgain-own fs gs h in
    (
      λ k o. (asked_again-me fs k o).0,
      (
        λ some_asked.
            let (k, o) = first_key (asked_again fs) some_asked in (asked_again-me fs k o).1,
        λ (f, stands, lost). LosesSession-asked_again fs f stands lost,
      ),
      own,
      own_only gs own,
    )

-- The console is shown exactly when the session's query has succeeded with its data, and the
-- sign-in page exactly when it has failed with a 401.
pub gate_lem :
    (q : Query Me)
    → ((me : Me) → (gate q ≡ some (console me)) ↔ ((q.status ≡ succeeded) × (q.loaded ≡ some me)))
      × ((gate q ≡ some sign_in) ↔ ((m : Text) × (q.status ≡ failed (api_error 401 m))))
unfolding gate
gate_lem q = (λ me. shown me q.status q.loaded refl refl, asked q.status q.loaded refl refl)
  where
    shown :
        (me : Me) (s : QueryStatus) (d : Option Me)
        → q.status ≡ s
        → q.loaded ≡ d
        → (gate q ≡ some (console me)) ↔ ((q.status ≡ succeeded) × (q.loaded ≡ some me))
    shown me pending d a b = ground arith
    shown me (failed (api_error n t)) d a b = ground arith
    shown me (failed (error t)) d a b = ground arith
    shown me (failed thrown) d a b = ground arith
    shown me succeeded none a b = ground arith
    shown me succeeded (some x) a b = ground arith

    asked :
        (s : QueryStatus) (d : Option Me)
        → q.status ≡ s
        → q.loaded ≡ d
        → (gate q ≡ some sign_in) ↔ ((m : Text) × (q.status ≡ failed (api_error 401 m)))
    asked pending d a b = (λ h. absurd (ground arith), λ (m, e). absurd (ground arith))
    asked succeeded none a b = (λ h. absurd (ground arith), λ (m, e). absurd (ground arith))
    asked succeeded (some x) a b = (λ h. absurd (ground arith), λ (m, e). absurd (ground arith))
    asked (failed (error t)) d a b = (λ h. absurd (ground arith), λ (m, e). absurd (ground arith))
    asked (failed thrown) d a b = (λ h. absurd (ground arith), λ (m, e). absurd (ground arith))
    asked (failed (api_error n t)) d a b = (λ h. (t, ground arith), λ (m, e). ground arith)
