-- ===== src/Console/Audit/Options.antt =====
-- The choices of the action filter in console/src/screens/audit.tsx.
use agentic_warden.Prelude.{
  Bool, true, false, List, [], ◌∷◌, ◌++◌, flat_map, Text, units, text_beq, text_eq, nat_eq, ◌==◌,
  ==_iff, Bool-cases, All, All-append, filter, contains, ◌≡◌, ◌≢◌, ◌↔◌, ◌⊎◌, inl, inr, refl, sym,
  ap, ◌∙◌, arith,
}
use agentic_warden.Prelude.{Occurs, Occurs-append, Occurs-filter}
use agentic_warden.Console.Audit.Texts.{
  Ascending, Distinct, sort_texts-Ascending, Occurs-sort_texts,
}
use agentic_warden.Console.Types.{AuditEvent}
use agentic_warden.Console.Audit.{
  distinct_actions, sort_texts, action_options, Filters, no_filters, filter_step, action_chosen,
  is_shown, shown_events,
}

contains-Occurs : (xs : List Text) (a : Text) → contains xs a ≡ true → Occurs a xs
contains-Occurs [] a h = cc
contains-Occurs (x ∷ xs) a h = elim (Bool-cases (x == a)) [
  | inl here ↦ inl (sym ((==_iff x a).0 here))
  | inr other ↦ inr (contains-Occurs xs a (ground arith))
]

contains-ne : (xs : List Text) (a : Text) → contains xs a ≡ false → All (λ x. x ≢ a) xs
contains-ne [] a h = tt
contains-ne (x ∷ xs) a h =
    ((λ e. absurd (cc ((==_iff x a).1 e, left))), contains-ne xs a (ground arith))
  where
    left : (x == a) ≡ false
    left = ground arith

Distinct-append :
    (xs : List Text) (a : Text) → Distinct xs → All (λ x. x ≢ a) xs → Distinct (xs ++ a ∷ [])
Distinct-append [] a h n = (tt, tt)
Distinct-append (x ∷ xs) a (f, h) (ne, n) =
    (All-append (λ y. x ≢ y) xs (a ∷ []) f (ne, tt), Distinct-append xs a h n)

distinct_actions-Distinct :
    (es : List AuditEvent) (seen : List Text) → Distinct seen → Distinct (distinct_actions es seen)
unfolding distinct_actions
distinct_actions-Distinct [] seen h = h
distinct_actions-Distinct (e ∷ es) seen h = elim (Bool-cases (contains seen e.action)) [
  | inl old ↦ rw (old) (distinct_actions-Distinct es seen h)
  | inr new ↦ rw (new) (
      distinct_actions-Distinct es (seen ++ e.action ∷ [])
        (Distinct-append seen e.action h (contains-ne seen e.action new)))
]

-- An event of this action stands in a list.
abbrev HasAction : Text → List AuditEvent → Type 0
HasAction a es = (e : AuditEvent) × Occurs e es × (e.action ≡ a)

Occurs-distinct_actions :
    (a : Text) (es : List AuditEvent) (seen : List Text)
    → Occurs a (distinct_actions es seen) ↔ (Occurs a seen ⊎ HasAction a es)
unfolding distinct_actions
Occurs-distinct_actions a [] seen =
    (λ o. inl o, λ o. elim o [ inl r ↦ r | inr (e, r, s) ↦ absurd r ])
Occurs-distinct_actions a (e ∷ es) seen = elim (Bool-cases (contains seen e.action)) [
  | inl old ↦
      let (down, up) = Occurs-distinct_actions a es seen in
      rw (old) (
        (λ o. elim (down o) [ inl r ↦ inl r | inr (f, r, s) ↦ inr (f, inr r, s) ]),
        (λ o. elim o [
          | inl r ↦ up (inl r)
          | inr (f, inl here, s) ↦ up (inl (contains-Occurs seen a (rw (← s, here) old)))
          | inr (f, inr r, s) ↦ up (inr (f, r, s))
        ]),
      )
  | inr new ↦
      let (down, up) = Occurs-distinct_actions a es (seen ++ e.action ∷ []) in
      let (split, merge) = Occurs-append a seen (e.action ∷ []) in
      rw (new) (
        (λ o. elim (down o) [
          | inl r ↦ elim (split r) [
            | inl s ↦ inl s
            | inr (inl s) ↦ inr (e, inl refl, sym s)
            | inr (inr s) ↦ absurd s
          ]
          | inr (f, r, s) ↦ inr (f, inr r, s)
        ]),
        (λ o. elim o [
          | inl r ↦ up (inl (merge (inl r)))
          | inr (f, inl here, s) ↦ up (inl (merge (inr (inl (sym s ∙ ap (λ x. x.action) here)))))
          | inr (f, inr r, s) ↦ up (inr (f, r, s))
        ]),
      )
]

filter-first :
    (p : AuditEvent → Bool) (es : List AuditEvent)
    → filter p es ≢ []
    → (e : AuditEvent) × Occurs e es × (p e ≡ true)
filter-first p [] h = absurd (h refl)
filter-first p (e ∷ es) h = elim (Bool-cases (p e)) [
  | inl keep ↦ (e, inl refl, keep)
  | inr drop ↦ let (f, r, s) = filter-first p es (λ n. h (rw (drop) n)) in (f, inr r, s)
]

Occurs-ne : (e : AuditEvent) (es : List AuditEvent) → Occurs e es → es ≢ []
Occurs-ne e [] o n = o
Occurs-ne e (f ∷ es) o n = cc

abbrev pub all_events : List (List AuditEvent) → List AuditEvent
all_events pages = flat_map (λ page. page) pages

module _ (to_lower : Text → Text) (pages : List (List AuditEvent)) (a : Text) where
  abbrev loaded_events : List AuditEvent
  loaded_events = all_events pages

  abbrev pub chosen_events : List AuditEvent
  chosen_events = shown_events to_lower (filter_step no_filters (action_chosen a)) pages

  abbrev chosen : Filters
  chosen = filter_step no_filters (action_chosen a)

  chosen-is_shown :
      (e : AuditEvent)
      → (a == units "All") ≡ false
      → (is_shown to_lower chosen e ≡ true) ↔ (e.action ≡ a)
  unfolding is_shown filter_step text_beq
  chosen-is_shown e other = rw (other) (==_iff e.action a)

  chosen_events-HasAction :
      (a == units "All") ≡ false → HasAction a loaded_events ↔ (chosen_events ≢ [])
  unfolding shown_events
  chosen_events-HasAction other = (
    λ (e, r, s). Occurs-ne e chosen_events (
        Occurs-filter (is_shown to_lower chosen) e loaded_events r ((chosen-is_shown e other).1 s)),
    λ h.
        let (e, r, s) = filter-first (is_shown to_lower chosen) loaded_events h in
        (e, r, (chosen-is_shown e other).0 s),
  )

  offered-shows :
      Occurs a (action_options loaded_events) ↔ ((a ≡ units "All") ⊎ (chosen_events ≢ []))
  unfolding action_options
  offered-shows =
      let (offered, listed) = Occurs-distinct_actions a loaded_events [] in
      let (sorted, unsorted) = Occurs-sort_texts a (distinct_actions loaded_events []) in
      (
        λ o. elim o [
          | inl all ↦ inl all
          | inr r ↦ elim (Bool-cases (a == units "All")) [
            | inl all ↦ inl ((==_iff a (units "All")).0 all)
            | inr other ↦ elim (offered (sorted r)) [
              | inl none_yet ↦ absurd none_yet
              | inr has ↦ inr ((chosen_events-HasAction other).0 has)
            ]
          ]
        ],
        λ o. elim o [
          | inl all ↦ inl all
          | inr shows ↦ elim (Bool-cases (a == units "All")) [
            | inl all ↦ inl ((==_iff a (units "All")).0 all)
            | inr other ↦ inr (unsorted (listed (inr ((chosen_events-HasAction other).1 shows))))
          ]
        ],
      )

  -- Behind "All" the filter offers the actions of the events that are loaded, in the order of their
  -- code units and each once: exactly those that show an event when they are chosen.
  pub action_options-chosen :
      (Occurs a (action_options (all_events pages)) ↔ ((a ≡ units "All") ⊎ (chosen_events ≢ [])))
      × ((options : List Text) × (action_options (all_events pages) ≡ units "All" ∷ options)
          × Ascending options)
  unfolding action_options
  action_options-chosen = (
    offered-shows,
    (
      sort_texts (distinct_actions loaded_events []),
      refl,
      sort_texts-Ascending (distinct_actions loaded_events [])
          (distinct_actions-Distinct loaded_events [] tt),
    ),
  )
