-- ===== src/Console/Audit/Pages.antt =====
-- That the pages put together are the log.
use agentic_warden.Prelude.{
  ℕ, zero, suc, ◌*◌, true, false, Option, none, some, List, [], ◌∷◌, ◌++◌, flat_map, append_assoc,
  append-nil, text_eq, nat_eq, ◌==◌, ==_iff, Bool-cases, length, last?, ◌≡◌, inl, inr, refl, sym,
  ap, ◌∙◌, arith,
}
use agentic_warden.Prelude.{take, drop, take-drop, take_add, take_short, last?-append}
use agentic_warden.Console.Types.{AuditEvent}
use agentic_warden.Console.Audit.{page_size, next_page}

next_page-short :
    (page : List AuditEvent) → (length page == page_size) ≡ false → next_page page ≡ none
unfolding next_page
next_page-short page h = rw (h) refl

next_page-full :
    (page : List AuditEvent) (e : AuditEvent)
    → (length page == page_size) ≡ true
    → last? page ≡ some e
    → next_page page ≡ some e.id
unfolding next_page
next_page-full page e h l = rw (h, l) refl

-- Where a page ends, the log goes on.
go_on :
    (log newer front rest page : List AuditEvent) (e : AuditEvent) (k : ℕ)
    → log ≡ newer ++ rest
    → page ≡ take k rest
    → page ≡ front ++ e ∷ []
    → log ≡ newer ++ front ++ e ∷ drop k rest
go_on log newer front rest page e k whole served ends =
    whole
    ∙ ap (λ t. newer ++ t)
        (sym (take-drop k rest)
          ∙ ap (λ t. t ++ drop k rest) (sym served ∙ ends)
          ∙ append_assoc front (e ∷ []) (drop k rest))
    ∙ sym (append_assoc newer front (e ∷ drop k rest))

module _ (log : List AuditEvent) (serve : Option ℕ → List AuditEvent) where
  -- The server's promise on a log with the newest event first: it serves the first events, or those
  -- behind the event with the id that it is given.
  abbrev pub Serves : Type 0
  Serves =
      (serve none ≡ take page_size log)
      × ((newer : List AuditEvent) (e : AuditEvent) (older : List AuditEvent)
          → log ≡ newer ++ e ∷ older
          → serve (some e.id) ≡ take page_size older)

  -- The pages after a number of clicks on the button for older events, from a first page parameter.
  abbrev pub fetch_pages : ℕ → Option ℕ → List (List AuditEvent)
  fetch_pages zero before = []
  fetch_pages (suc n) before =
      serve before
      ∷ elim (next_page (serve before)) [ none ↦ [] | some id ↦ fetch_pages n (some id) ]

  fetch_pages-rest :
      Serves
      → (n : ℕ) (before : Option ℕ) (newer rest : List AuditEvent) → log ≡ newer ++ rest
      → serve before ≡ take page_size rest
      → flat_map (λ page. page) (fetch_pages n before) ≡ take (n * page_size) rest
  unfolding flat_map
  fetch_pages-rest h zero before newer rest whole served = refl
  fetch_pages-rest h (suc n) before newer rest whole served =
      elim (Bool-cases (length (serve before) == page_size)) [
        | inl full ↦
            let (front, e, ends, last) =
              last?-append 49 (serve before) ((==_iff (length (serve before)) page_size).0 full) in
            rw (next_page-full (serve before) e full last) (
              let more = go_on log newer front rest (serve before) e page_size whole served ends in
              ap (λ t. serve before ++ t)
                (fetch_pages-rest h n (some e.id) (newer ++ front ++ e ∷ []) (drop page_size rest)
                  (more ∙ sym (append_assoc (newer ++ front) (e ∷ []) (drop page_size rest)))
                  (h.1 (newer ++ front) e (drop page_size rest) more))
              ∙ ap (λ t. t ++ take (n * page_size) (drop page_size rest)) served
              ∙ sym (take_add page_size (n * page_size) (suc n * page_size) rest (omega arith)))
        | inr short ↦ rw (next_page-short (serve before) short) (
            append-nil (serve before)
            ∙ served
            ∙ sym (
                take_short page_size (suc n * page_size) rest
                  (λ f.
                    cc ((==_iff (length (serve before)) page_size).1 (ap length served ∙ f), short))
                  (omega arith)))
      ]

  -- However often the operator asks for older events, the events that are loaded are the newest of
  -- the log, each once and in its order: one page for the first request and for each further one.
  pub fetch_pages-log :
      (n : ℕ) → Serves → flat_map (λ page. page) (fetch_pages n none) ≡ take (n * page_size) log
  fetch_pages-log n h = fetch_pages-rest h n none [] log refl h.0
