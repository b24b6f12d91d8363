-- ===== src/Console/Audit/Texts.antt =====
-- The order of the texts in the action filter of console/src/screens/audit.tsx.
use agentic_warden.Prelude.{
  true, false, List, [], ◌∷◌, Text, text_eq, nat_eq, Bool-cases, All, ltb, ◌≡◌, ◌≢◌, ◌↔◌, ◌⊎◌, inl,
  inr, refl, ap, ◌∙◌, arith,
}
use agentic_warden.Prelude.{Occurs}
use agentic_warden.Console.Audit.{text_after, insert_text, sort_texts}

text_after_total : (s t : Text) → text_after s t ≡ false → s ≢ t → text_after t s ≡ true
unfolding text_after
text_after_total [] [] h n = absurd (n refl)
text_after_total [] (d ∷ t) h n = refl
text_after_total (c ∷ s) [] h n = cc
text_after_total (c ∷ s) (d ∷ t) h n = elim (Bool-cases (ltb c d)) [
  | inl less ↦ rw (less) refl
  | inr no_less ↦ elim (Bool-cases (ltb d c)) [
    | inl more ↦ absurd (ground arith)
    | inr no_more ↦
        let same : c ≡ d = ground arith in
        rw (no_less, no_more)
          (text_after_total s t (ground arith) (λ e. n (ap (λ k. k ∷ s) same ∙ ap (λ r. d ∷ r) e)))
  ]
]

text_after_trans :
    (s t u : Text) → text_after s t ≡ true → text_after t u ≡ true → text_after s u ≡ true
unfolding text_after
text_after_trans [] t u h k = cc
text_after_trans (c ∷ s) [] u h k = cc
text_after_trans (c ∷ s) (d ∷ t) [] h k = refl
text_after_trans (c ∷ s) (d ∷ t) (e ∷ u) h k = ground (arith, text_after_trans s t u)

-- In the order of the code units, each text once.
abbrev pub Ascending : List Text → Type 0
Ascending [] = Unit
Ascending (x ∷ xs) = All (λ y. text_after y x ≡ true) xs × Ascending xs

All-insert_text :
    (P : Text → Type 0) (x : Text) (ys : List Text) → P x → All P ys → All P (insert_text x ys)
unfolding insert_text
All-insert_text P x [] p h = (p, tt)
All-insert_text P x (y ∷ ys) p (q, h) = elim (Bool-cases (text_after x y)) [
  | inl later ↦ rw (later) (q, All-insert_text P x ys p h)
  | inr sooner ↦ rw (sooner) (p, (q, h))
]

All-later :
    (x y : Text) (ys : List Text)
    → text_after y x ≡ true
    → All (λ z. text_after z y ≡ true) ys
    → All (λ z. text_after z x ≡ true) ys
All-later x y [] h a = tt
All-later x y (z ∷ zs) h (p, a) = (text_after_trans z y x p h, All-later x y zs h a)

insert_text-Ascending :
    (x : Text) (ys : List Text) → All (λ y. x ≢ y) ys → Ascending ys → Ascending (insert_text x ys)
unfolding insert_text
insert_text-Ascending x [] n h = (tt, tt)
insert_text-Ascending x (y ∷ ys) (ne, n) (first, h) = elim (Bool-cases (text_after x y)) [
  | inl later ↦ rw (later) (
    All-insert_text (λ z. text_after z y ≡ true) x ys later first,
    insert_text-Ascending x ys n h,
  )
  | inr sooner ↦
      let up = text_after_total x y sooner ne in
      rw (sooner) ((up, All-later x y ys up first), (first, h))
]

All-sort_texts : (P : Text → Type 0) (xs : List Text) → All P xs → All P (sort_texts xs)
unfolding sort_texts
All-sort_texts P [] h = tt
All-sort_texts P (x ∷ xs) (p, h) = All-insert_text P x (sort_texts xs) p (All-sort_texts P xs h)

abbrev pub Distinct : List Text → Type 0
Distinct [] = Unit
Distinct (x ∷ xs) = All (λ y. x ≢ y) xs × Distinct xs

pub sort_texts-Ascending : (xs : List Text) → Distinct xs → Ascending (sort_texts xs)
unfolding sort_texts
sort_texts-Ascending [] h = tt
sort_texts-Ascending (x ∷ xs) (n, h) =
    insert_text-Ascending x (sort_texts xs) (All-sort_texts (λ y. x ≢ y) xs n)
      (sort_texts-Ascending xs h)

Occurs-insert_text :
    (a x : Text) (ys : List Text) → Occurs a (insert_text x ys) ↔ ((a ≡ x) ⊎ Occurs a ys)
unfolding insert_text
Occurs-insert_text a x [] = (λ o. o, λ o. o)
Occurs-insert_text a x (y ∷ ys) = elim (Bool-cases (text_after x y)) [
  | inl later ↦
      let (down, up) = Occurs-insert_text a x ys in
      rw (later) (
        (λ o. elim o [
          | inl here ↦ inr (inl here)
          | inr there ↦ elim (down there) [ inl e ↦ inl e | inr r ↦ inr (inr r) ]
        ]),
        (λ o. elim o [
          | inl e ↦ inr (up (inl e))
          | inr (inl here) ↦ inl here
          | inr (inr there) ↦ inr (up (inr there))
        ]),
      )
  | inr sooner ↦ rw (sooner) ((λ o. o), (λ o. o))
]

pub Occurs-sort_texts : (a : Text) (xs : List Text) → Occurs a (sort_texts xs) ↔ Occurs a xs
unfolding sort_texts
Occurs-sort_texts a [] = (λ o. o, λ o. o)
Occurs-sort_texts a (x ∷ xs) =
    let (down, up) = Occurs-insert_text a x (sort_texts xs) in
    let (in_rest, of_rest) = Occurs-sort_texts a xs in
    (
      λ o. elim (down o) [ inl e ↦ inl e | inr r ↦ inr (in_rest r) ],
      λ o. up (elim o [ inl e ↦ inl e | inr r ↦ inr (of_rest r) ]),
    )
